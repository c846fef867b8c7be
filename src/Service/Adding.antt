-- ===== src/Service/Adding.antt =====
-- `Add` of internal/service/deckard_service.go.
use deckard.Common.{ℕ, suc, Bool, none, List, [], ◌∷◌, if◌then◌else◌, Str}
use deckard.Common.Int.{ℤ, pos, eqb_ℤ, scale, wrap64, ◌+ℤ◌}
use deckard.Common.Maps.{Map}
use deckard.Outcome.{Result, ok, err, panic, status_internal}
use deckard.Dtime.{Time}
use deckard.Score.{Score, get_add_score}
use deckard.Message.{Message, get_queue_parts}
use deckard.Interfaces.{Cache, Storage}
use deckard.Queue.{add_messages_to_storage, add_messages_to_cache}
use deckard.Service.{Deckard, with_pool, internal}

-- `deckard.AddMessage`
pub record AddMessage (P : Type 0) : Type 0 where
  pub id : Str
  pub payload : P
  pub string_payload : Str
  pub metadata : Map Str
  pub queue : Str
  pub timeless : Bool
  pub ttl_minutes : ℤ
  pub description : Str
  pub score : Score

pub record AddResponse : Type 0 where
  pub created_count : ℕ
  pub updated_count : ℕ

-- The nanoseconds of a duration of minutes, an int64 product.
unfoldable pub minutes : ℤ → ℤ
unfolding scale wrap64
minutes n = wrap64 (scale n 60000000000)

-- `add_century` is `AddDate(100, 0, 0)` of the time library.
unfoldable pub expiry_of : {P : Type 0} → (Time → Time) → Time → AddMessage P → Time
unfolding minutes ◌+ℤ◌
expiry_of add_century now m =
    let t = if eqb_ℤ m.ttl_minutes (pos 0) then now else now +ℤ minutes m.ttl_minutes in
    if m.timeless then add_century t else t

-- With the clock readings for the expiry date and for the score.
unfoldable pub to_message : {P : Type 0} → (Time → Time) → Time → Time → AddMessage P → Message P
unfolding expiry_of get_add_score get_queue_parts
to_message add_century now scored_at m = record {
  id = m.id;
  description = m.description;
  queue = m.queue;
  expiry_date = expiry_of add_century now m;
  timeless = m.timeless;
  metadata = m.metadata;
  payload = m.payload;
  string_payload = m.string_payload;
  lock_ms = pos 0;
  internal_id = none;
  score = get_add_score scored_at m.score;
  last_usage = none;
  breakpoint = [];
  last_score_subtract = pos 0;
  total_score_subtract = pos 0;
  usage_count = pos 0;
  queue_prefix = (get_queue_parts m.queue).0;
  queue_suffix = (get_queue_parts m.queue).1;
  diagnostics = none;
}

-- From the i-th message on.
unfoldable pub to_messages :
    {P : Type 0} → (Time → Time) → (ℕ → Time × Time) → ℕ → List (AddMessage P) → List (Message P)
unfolding to_message
to_messages add_century clock i [] = []
to_messages add_century clock i (m ∷ ms) =
    to_message add_century (clock i).0 (clock i).1 m ∷ to_messages add_century clock (suc i) ms

module _ {P : Type 0} (cache : Cache P) (storage : Storage P) where
  -- What the storage keeps stays when the cache fails.
  unfoldable pub add_stored :
      {L : Type 0}
      → (Map (List (Message P)) → Map (List (Message P)))
      → Deckard cache.State storage.State L
      → List (Message P)
      → ℕ × ℕ
      → Deckard cache.State storage.State L × Result AddResponse
  unfolding add_messages_to_cache
  add_stored order d messages (inserted, updated) =
      let r = add_messages_to_cache cache storage order d.pool messages in
      internal (λ n. record { created_count = inserted; updated_count = updated })
        (with_pool r.0 d, r.1)

  unfoldable pub add_request :
      {L : Type 0}
      → (Map (List (Message P)) → Map (List (Message P)))
      → (Time → Time)
      → (ℕ → Time × Time)
      → Time
      → Deckard cache.State storage.State L
      → List (AddMessage P)
      → Deckard cache.State storage.State L × Result AddResponse
  unfolding to_messages add_messages_to_storage add_stored
  add_request order add_century clock now d request =
      let messages = to_messages add_century clock 0 request in
      let r = add_messages_to_storage cache storage now d.pool messages in
      elim r.1 [
        | ok counts ↦ add_stored order (with_pool r.0 d) messages counts
        | err e ↦ (with_pool r.0 d, err status_internal)
        | panic ↦ (with_pool r.0 d, panic)
      ]
