-- ===== src/Tests/ServiceRuns.antt =====
-- The request handlers and the configuration service.
use deckard.Common.{
  ℕ, ◌≡◌, refl, Bool, true, false, not, ◌==◌, Option, none, some, [], ◌∷◌, if◌then◌else◌, Str,
  Str_discrete, codes, is_yes, arith, inl, inr, ◌⊎◌, ◌≢◌, Bool-cases,
}
use mathlib.Core.List.Perm
use deckard.Common.Int.{ℤ, pos, negsuc, leb_ℤ, ◌≤ℤ◌, ◌+ℤ◌, ◌-ℤ◌}
use deckard.Outcome.{ok}
use deckard.Dtime.{Time}
use deckard.Score.{min_score, max_score, is_undefined}
use deckard.Service.Scores.{ack_score-nack_score_bounds}
use deckard.Storage.{QueueConfiguration}
use deckard.MemoryCache.{MemoryCache}
use deckard.MemoryCache.Copies.{total, copies_at}
use deckard.MemoryCache.Steps.{Reach-Inv}
use deckard.MemoryStorage.{MemoryStorage, ack_storage, nack_storage}
use deckard.Queue.Memory.{memory_cache, memory_storage}
use deckard.ConfigurationService.{
  LocalCache, LocalCacheLaws, Configurations, edit_configuration, get_configuration,
}
use deckard.ConfigurationService.Entries.{edited}
use deckard.ConfigurationService.Coherence.{starts, gets, edits, get_configuration-Serves}
use deckard.Service.{Deckard}
use deckard.Service.Adding.{AddMessage, add_request}
use deckard.Service.Storing.{Entered, add_request-Entered}
use deckard.Service.Releasing.{
  AckRequest, ack_score, nack_score, outcome_message, ack_request, nack_request,
}
use deckard.Service.Removal.{Settled, ack_request-nack_request-Settled}
use deckard.Tests.QueueRuns.{equal_glob, now, empty, empty-Reach, busy, busy-Reach}

-- A local cache whose entries last nine minutes.
abbrev expiring : Option (Time × QueueConfiguration) → Time → Option QueueConfiguration
expiring none time = none
expiring (some (until, c)) time = if leb_ℤ time until then some c else none

abbrev nine_minutes : LocalCache
nine_minutes = record {
  State = Str → Option (Time × QueueConfiguration);
  get_local = λ time s q. expiring (s q) time;
  set_local = λ time queue c s q.
      if is_yes (Str_discrete queue q) then some (time +ℤ pos 540000000000, c) else s q;
  delete_local = λ queue s q. if is_yes (Str_discrete queue q) then none else s q;
}

set_expiring :
    (time until : Time) (queue q : Str) (c : QueueConfiguration)
    (o : Option (Time × QueueConfiguration))
    → let found = expiring (if is_yes (Str_discrete queue q) then some (until, c) else o) time in
      (found ≡ none) ⊎ (found ≡ (if is_yes (Str_discrete queue q) then some c else expiring o time))
set_expiring time until queue q c o = elim (Bool-cases (leb_ℤ time until)) [
  | inl t ↦ inr (ground (arith, t))
  | inr t ↦ elim (Str_discrete queue q) [
    | yes e ↦ inl (ground (arith, t, e))
    | no e ↦ inr (ground (arith, e))
  ]
]

expiring_later :
    (time later : Time) (c : QueueConfiguration) (o : Option (Time × QueueConfiguration))
    → time ≤ℤ later
    → expiring o later ≡ some c
    → expiring o time ≡ some c
expiring_later time later c none h e = e
expiring_later time later c (some (until, x)) h e = ground (arith, h, e)

delete_expiring :
    (time : Time) (queue q : Str) (o : Option (Time × QueueConfiguration))
    → let found = expiring (if is_yes (Str_discrete queue q) then none else o) time in
      (found ≡ none) ⊎ ((queue ≡ q → ⊥) × (found ≡ expiring o time))
delete_expiring time queue q o = elim (Str_discrete queue q) [
  | yes e ↦ inl (ground (arith, e))
  | no e ↦ inr (e, ground (arith, e))
]

nine_minutes_laws : LocalCacheLaws nine_minutes
nine_minutes_laws = record {
  get_set = λ time set_at queue q c s. set_expiring time _ queue q c (s q);
  get_delete = λ time queue q s. delete_expiring time queue q (s q);
  get_later = λ time later q c s h e. expiring_later time later c (s q) h e;
}

abbrev orders : Str
orders = codes "orders"

abbrev new_service : Configurations (Str → Option (Time × QueueConfiguration)) (MemoryStorage ℕ)
new_service = record { local_cache = λ q. none; storage = empty.storage }

abbrev at_most : ℤ → QueueConfiguration
at_most n = record { queue = orders; max_elements = n }

-- Edited, read, and edited again.
abbrev edited_once : Configurations (Str → Option (Time × QueueConfiguration)) (MemoryStorage ℕ)
edited_once =
    (edit_configuration nine_minutes (memory_storage ℕ ◌+ℤ◌) now new_service
      (some (at_most (pos 5)))).0

abbrev read_once : Configurations (Str → Option (Time × QueueConfiguration)) (MemoryStorage ℕ)
read_once = (get_configuration nine_minutes (memory_storage ℕ ◌+ℤ◌) now edited_once orders).0

get_configuration-Serves_example :
    (get_configuration nine_minutes
      (memory_storage ℕ ◌+ℤ◌)
      now
      (edit_configuration nine_minutes
        (memory_storage ℕ ◌+ℤ◌)
        now
        read_once
        (some (at_most (negsuc 2)))).0
      orders).1
    ≡ ok (at_most (pos 0))
unfolding edited Str_discrete
get_configuration-Serves_example =
    get_configuration-Serves ℕ nine_minutes nine_minutes_laws ◌+ℤ◌ orders (
      edits (gets (edits (starts now new_service (λ later q. refl) refl) (at_most (pos 5))) orders)
        (at_most (negsuc 2)))

abbrev requested_message : Str → AddMessage ℕ
requested_message id = record {
  id = id;
  payload = 0;
  string_payload = [];
  metadata = [];
  queue = orders;
  timeless = false;
  ttl_minutes = pos 60;
  description = [];
  score = pos 3;
}

abbrev deckard_of : Bool → Deckard MemoryCache (MemoryStorage ℕ) (Unit {0})
deckard_of is_busy = record {
  pool = if is_busy then busy else empty;
  local_cache = tt;
  memory_instance = true;
}

add_request-Entered_example :
    Entered equal_glob ◌+ℤ◌
      (λ groups. groups)
      (λ t. t)
      (λ i. (now, now))
      now
      (deckard_of false)
      0
      (requested_message (codes "a") ∷ requested_message (codes "b") ∷ [])
      (add_request
        (memory_cache ℕ equal_glob)
        (memory_storage ℕ ◌+ℤ◌)
        (λ groups. groups)
        (λ t. t)
        (λ i. (now, now))
        now
        (deckard_of false)
        (requested_message (codes "a") ∷ requested_message (codes "b") ∷ []))
add_request-Entered_example =
    add_request-Entered equal_glob ◌+ℤ◌ (λ groups. groups) (λ t. t) (λ i. (now, now)) now
      (deckard_of false) 0 (requested_message (codes "a") ∷ requested_message (codes "b") ∷ [])
      (λ groups. Perm.refl groups) ((λ e. cc, λ e. cc), ((λ e. cc, λ e. cc), tt)) (omega arith)
      (refl, tt) (Reach-Inv empty-Reach).one_copy

abbrev request : AckRequest
request = record {
  id = codes "a";
  queue = orders;
  reason = [];
  score_subtract = pos 0;
  breakpoint = [];
  lock_ms = pos 0;
  remove_message = true;
  score = pos 0;
}

ack_request-nack_request-Settled_example :
    let acked = outcome_message {P = ℕ} 0 request (some now) (ack_score ◌-ℤ◌ now request) in
    let nacked = outcome_message {P = ℕ} 0 request none (nack_score request) in
    let processing = not (copies_at busy.cache.processing_queues orders (codes "a") == 0) in
    Settled equal_glob ◌+ℤ◌ request
      (total busy.cache)
      processing
      (ack_storage ◌+ℤ◌ busy.storage acked).0
      (ack_request
        (memory_cache ℕ equal_glob)
        (memory_storage ℕ ◌+ℤ◌)
        ◌-ℤ◌
        0
        now
        now
        now
        (deckard_of true)
        request)
    × Settled equal_glob ◌+ℤ◌ request
        (total busy.cache)
        processing
        (nack_storage busy.storage nacked).0
        (nack_request
          (memory_cache ℕ equal_glob)
          (memory_storage ℕ ◌+ℤ◌)
          0
          now
          (deckard_of true)
          request)
ack_request-nack_request-Settled_example =
    ack_request-nack_request-Settled equal_glob ◌+ℤ◌ ◌-ℤ◌ 0 now now now (deckard_of true) request
      (Reach-Inv busy-Reach).one_copy (λ e. cc) (λ e. cc)

-- With a score beyond the range, which is not capped.
abbrev beyond : AckRequest
beyond = record request { score = negsuc 4 }

ack_score-nack_score_bounds_example :
    ((beyond.score ≢ pos 0)
      × (ack_score ◌-ℤ◌ now beyond ≡ beyond.score)
      × (nack_score beyond ≡ beyond.score))
    ⊎ ((beyond.score ≡ pos 0)
        × (beyond.lock_ms ≢ pos 0)
        × (is_undefined (ack_score ◌-ℤ◌ now beyond) ≡ true)
        × (is_undefined (nack_score beyond) ≡ true))
    ⊎ ((beyond.score ≡ pos 0)
        × (beyond.lock_ms ≡ pos 0)
        × (min_score ≤ℤ ack_score ◌-ℤ◌ now beyond)
        × (ack_score ◌-ℤ◌ now beyond ≤ℤ max_score)
        × (nack_score beyond ≡ min_score))
ack_score-nack_score_bounds_example = ack_score-nack_score_bounds ◌-ℤ◌ now beyond
