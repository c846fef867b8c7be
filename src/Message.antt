-- ===== src/Message.antt =====
-- internal/queue/message and internal/queue/pool: what is stored of a message, and the parts of a
-- queue's name. `P` is the payload, a map of protobuf values that the code only hands on.
pub mod Laws
use deckard.Common.{
  ℕ, ◌+◌, ◌≡◌, Bool, true, false, Option, none, some, List, [], ◌∷◌, ◌==◌, ◌&&◌, if◌then◌else◌, Str,
}
use deckard.Common.Int.{ℤ}
use deckard.Common.Maps.{Map}
use deckard.Dtime.{Time}
use deckard.Score.{Score}

pub data PoolType : Type 0 where
  primary_pool processing_pool lock_ack_pool lock_nack_pool : PoolType

-- The colon; `QUEUE_SEPARATOR` is two of them.
abbrev pub colon : ℕ
colon = b':'

-- The counters are pointers, absent where nil.
pub record MessageDiagnostics : Type 0 where
  pub acks : Option ℤ
  pub nacks : Option ℤ
  pub consecutive_acks : Option ℤ
  pub consecutive_nacks : Option ℤ

pub record Message (P : Type 0) : Type 0 where
  pub id : Str
  pub description : Str
  pub queue : Str
  pub expiry_date : Time
  pub timeless : Bool
  pub metadata : Map Str
  pub payload : P
  pub string_payload : Str
  pub lock_ms : ℤ
  pub internal_id : Option ℤ
  pub score : Score
  pub last_usage : Option Time
  pub breakpoint : Str
  pub last_score_subtract : Score
  pub total_score_subtract : Score
  pub usage_count : ℤ
  pub queue_prefix : Str
  pub queue_suffix : Str
  pub diagnostics : Option MessageDiagnostics

-- `strings.Contains(queue, "::")`
unfoldable pub contains_separator : Str → Bool
contains_separator [] = false
contains_separator (c ∷ []) = false
contains_separator (c ∷ d ∷ s) =
    if c == colon && d == colon then true else contains_separator (d ∷ s)

-- `strings.SplitN(queue, "::", 2)` of a text with the separator.
unfoldable pub split_separator : Str → Str × Str
split_separator [] = ([], [])
split_separator (c ∷ []) = (c ∷ [], [])
split_separator (c ∷ d ∷ s) =
    let rest = split_separator (d ∷ s) in
    if c == colon && d == colon then ([], s) else (c ∷ rest.0, rest.1)

unfoldable pub get_queue_parts : Str → Str × Str
unfolding contains_separator split_separator
get_queue_parts queue = if contains_separator queue then split_separator queue else (queue, [])

unfoldable pub get_queue_prefix : Str → Str
unfolding get_queue_parts
get_queue_prefix queue = (get_queue_parts queue).0
