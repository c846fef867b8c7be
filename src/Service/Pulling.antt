-- ===== src/Service/Pulling.antt =====
-- `Pull` and `GetById` of internal/service/deckard_service.go.
use deckard.Common.{
  ℕ, Bool, true, false, Option, none, some, List, [], ◌∷◌, if◌then◌else◌, ite, ◌&&◌, Str,
  Str_discrete, map,
}
use deckard.Common.Int.{ℤ, pos, eqb_ℤ, ltb_ℤ, leb_ℤ, wrap64, ◌-ℤ◌}
use deckard.Common.Maps.{Map}
use deckard.Outcome.{Result, err, status_invalid_argument}
use deckard.Dtime.{Readings, Time, time_to_ms}
use deckard.Score.{Score, of_int64, get_pull_min_score, get_pull_max_score}
use deckard.Message.{Message, MessageDiagnostics}
use deckard.Interfaces.{Cache, Storage}
use deckard.Queue.{get_storage_messages}
use deckard.Queue.Pull.{pull}
use deckard.Service.{Deckard, with_pool, internal, queue_filter}

pub record PullRequest : Type 0 where
  pub queue : Str
  pub amount : ℤ
  pub score_filter : ℤ
  pub max_score : Score
  pub min_score : Score
  pub ack_deadline_ms : ℤ

-- `deckard.MessageDiagnostics`
pub record DiagnosticsCounts : Type 0 where
  pub acks : ℤ
  pub nacks : ℤ
  pub consecutive_acks : ℤ
  pub consecutive_nacks : ℤ

-- `deckard.Message`
pub record SentMessage (P : Type 0) : Type 0 where
  pub id : Str
  pub description : Str
  pub queue : Str
  pub payload : P
  pub metadata : Map Str
  pub string_payload : Str
  pub score : Score
  pub breakpoint : Str
  pub diagnostics : Option DiagnosticsCounts

pub record GetByIdResponse (P : Type 0) : Type 0 where
  pub message : Option (SentMessage P)
  pub found : Bool
  pub human_readable_payload : Map Str

abbrev pub count_or_zero : Option ℤ → ℤ
count_or_zero none = pos 0
count_or_zero (some n) = n

unfoldable pub get_message_diagnostic : Option MessageDiagnostics → DiagnosticsCounts
get_message_diagnostic none = record {
  acks = pos 0;
  nacks = pos 0;
  consecutive_acks = pos 0;
  consecutive_nacks = pos 0;
}
get_message_diagnostic (some d) = record {
  acks = count_or_zero d.acks;
  nacks = count_or_zero d.nacks;
  consecutive_acks = count_or_zero d.consecutive_acks;
  consecutive_nacks = count_or_zero d.consecutive_nacks;
}

-- At least 1 and at most 1000.
unfoldable pub amount_of : PullRequest → ℤ
amount_of request =
    if leb_ℤ request.amount (pos 0)
    then pos 1
    else if ltb_ℤ (pos 1000) request.amount
    then pos 1000
    else request.amount

-- With the deprecated filter of old clients, at the clock reading `now`.
unfoldable pub max_score_of : Time → PullRequest → Score
unfolding ◌-ℤ◌ wrap64
max_score_of now request =
    if eqb_ℤ request.max_score (pos 0) && ltb_ℤ (pos 0) request.score_filter
    then of_int64 (wrap64 (time_to_ms now -ℤ request.score_filter))
    else request.max_score

module _ {P : Type 0} where
  unfoldable pub pulled_message : Message P → SentMessage P
  unfolding get_message_diagnostic
  pulled_message q = record {
    id = q.id;
    description = [];
    queue = q.queue;
    payload = q.payload;
    metadata = q.metadata;
    string_payload = q.string_payload;
    score = q.score;
    breakpoint = q.breakpoint;
    diagnostics = some (get_message_diagnostic q.diagnostics);
  }

  abbrev pub pulled_messages : Option (List (Message P)) → List (SentMessage P)
  pulled_messages none = []
  pulled_messages (some messages) = map pulled_message messages

  abbrev pub not_found : GetByIdResponse P
  not_found = record { message = none; found = false; human_readable_payload = [] }

  -- `readable` gives the texts of a payload's values.
  unfoldable pub found_by_id : (P → Map Str) → List (Message P) → GetByIdResponse P
  found_by_id readable [] = not_found
  found_by_id readable (m ∷ []) = record {
    message = some (record {
      id = m.id;
      description = m.description;
      queue = m.queue;
      payload = m.payload;
      metadata = m.metadata;
      string_payload = m.string_payload;
      score = m.score;
      breakpoint = m.breakpoint;
      diagnostics = none;
    });
    found = true;
    human_readable_payload = readable m.payload;
  }
  found_by_id readable (m ∷ n ∷ ms) = not_found

module _ {P : Type 0} (cache : Cache P) (storage : Storage P) where
  unfoldable pub pull_request :
      {L : Type 0}
      → (List (Message P) → List (Message P))
      → (ℕ → Time)
      → Time
      → Readings
      → Readings
      → Deckard cache.State storage.State L
      → PullRequest
      → Deckard cache.State storage.State L × Result (List (SentMessage P))
  unfolding amount_of max_score_of pull pulled_message
  pull_request sort_by_score clock filtered_at found_at retried_at d request =
      let r =
        pull cache storage sort_by_score clock found_at retried_at d.pool request.queue
          (amount_of request) (get_pull_min_score request.min_score)
          (get_pull_max_score (max_score_of filtered_at request)) request.ack_deadline_ms in
      internal pulled_messages (with_pool r.0 d, r.1)

  unfoldable pub get_by_id :
      {L : Type 0}
      → (P → Map Str)
      → Readings
      → Deckard cache.State storage.State L
      → Str
      → Str
      → Deckard cache.State storage.State L × Result (GetByIdResponse P)
  unfolding get_storage_messages found_by_id
  get_by_id readable now d queue id =
      ite (Str_discrete id []) (d, err status_invalid_argument)
        (ite (Str_discrete queue []) (d, err status_invalid_argument)
          (internal (found_by_id readable) (
            d,
            get_storage_messages cache storage now d.pool (
                some (record {
                  sort = none;
                  limit = pos 1;
                  internal_filter = some (queue_filter queue (some (id ∷ [])));
                  retry = false;
                })),
          )))
