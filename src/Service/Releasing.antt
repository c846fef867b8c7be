-- ===== src/Service/Releasing.antt =====
-- `Ack` and `Nack` of internal/service/deckard_service.go, with the removal that a request may ask for.
use deckard.Common.{Bool, true, false, not, Option, none, some, [], ◌∷◌, if◌then◌else◌, Str}
use deckard.Common.Int.{ℤ, pos, negsuc, eqb_ℤ, ltb_ℤ}
use deckard.Outcome.{Result, ok, err, panic, status_internal}
use deckard.Dtime.{Time}
use deckard.Score.{Score, max_score, min_score, undefined_score, get_score_by_default_algorithm}
use deckard.Message.{Message}
use deckard.Interfaces.{Cache, Storage}
use deckard.Queue.{ack_message, nack_message}
use deckard.Service.{Deckard, with_pool, internal, RemoveResponse, remove_request}

-- For a nack, too.
pub record AckRequest : Type 0 where
  pub id : Str
  pub queue : Str
  pub reason : Str
  pub score_subtract : Score
  pub breakpoint : Str
  pub lock_ms : ℤ
  pub remove_message : Bool
  pub score : Score

pub record AckResponse : Type 0 where
  pub success : Bool
  pub removal_response : Option RemoveResponse

-- `time.Time{}`, the beginning of the year 1.
abbrev pub zero_time : Time
zero_time = negsuc 62135596799999999999

-- `sub_float` is the difference of two float64 values.
unfoldable pub ack_score : (Score → Score → Score) → Time → AckRequest → Score
ack_score sub_float now request =
    let new_score = sub_float (get_score_by_default_algorithm now) request.score_subtract in
    if not (eqb_ℤ request.score (pos 0))
    then request.score
    else if eqb_ℤ request.lock_ms (pos 0)
    then (if ltb_ℤ new_score min_score
        then min_score
        else if ltb_ℤ max_score new_score
        then max_score
        else new_score)
    else undefined_score

unfoldable pub nack_score : AckRequest → Score
nack_score request =
    if not (eqb_ℤ request.score (pos 0))
    then request.score
    else if eqb_ℤ request.lock_ms (pos 0)
    then min_score
    else undefined_score

-- The message that is handed to the queue. A field that is not set has its zero value; `no_payload` is that of the payload.
unfoldable pub outcome_message : {P : Type 0} → P → AckRequest → Option Time → Score → Message P
outcome_message no_payload request last_usage score = record {
  id = request.id;
  description = [];
  queue = request.queue;
  expiry_date = zero_time;
  timeless = false;
  metadata = [];
  payload = no_payload;
  string_payload = [];
  lock_ms = request.lock_ms;
  internal_id = none;
  score = score;
  last_usage = last_usage;
  breakpoint = request.breakpoint;
  last_score_subtract = request.score_subtract;
  total_score_subtract = pos 0;
  usage_count = pos 0;
  queue_prefix = [];
  queue_suffix = [];
  diagnostics = none;
}

module _ {P : Type 0} (cache : Cache P) (storage : Storage P) where
  unfoldable pub remove_message_from_ack_nack :
      {L : Type 0}
      → Deckard cache.State storage.State L
      → AckRequest
      → Deckard cache.State storage.State L × Result AckResponse
  unfolding remove_request
  remove_message_from_ack_nack d request =
      internal (λ removed. record { success = true; removal_response = some removed })
        (remove_request cache storage d (record { ids = request.id ∷ []; queue = request.queue }))

  -- What follows the queue's call: a removal if it is asked for, and then its response.
  unfoldable pub after_outcome :
      {L : Type 0}
      → AckRequest
      → Deckard cache.State storage.State L
      → Result Bool
      → Deckard cache.State storage.State L × Result AckResponse
  unfolding remove_message_from_ack_nack
  after_outcome request d (err e) = (d, err status_internal)
  after_outcome request d panic = (d, panic)
  after_outcome request d (ok result) =
      if request.remove_message
      then remove_message_from_ack_nack d request
      else (d, ok (record { success = result; removal_response = none }))

  -- The clock is read for the score, for the last usage and by the cache.
  unfoldable pub ack_request :
      {L : Type 0}
      → (Score → Score → Score)
      → P
      → Time
      → Time
      → Time
      → Deckard cache.State storage.State L
      → AckRequest
      → Deckard cache.State storage.State L × Result AckResponse
  unfolding ack_score outcome_message ack_message after_outcome
  ack_request sub_float no_payload scored_at used_at now d request =
      let message =
        outcome_message no_payload request (some used_at) (ack_score sub_float scored_at request) in
      let r = ack_message cache storage now d.pool (some message) request.reason in
      after_outcome request (with_pool r.0 d) r.1

  unfoldable pub nack_request :
      {L : Type 0}
      → P
      → Time
      → Deckard cache.State storage.State L
      → AckRequest
      → Deckard cache.State storage.State L × Result AckResponse
  unfolding nack_score outcome_message nack_message after_outcome
  nack_request no_payload now d request =
      let message = outcome_message no_payload request none (nack_score request) in
      let r = nack_message cache storage now d.pool (some message) request.reason in
      after_outcome request (with_pool r.0 d) r.1
