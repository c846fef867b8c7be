-- ===== src/Queue/Pull.antt =====
-- `Pull` of internal/queue/queue.go.
use deckard.Common.{
  ℕ, Bool, true, false, not, Option, none, some, List, [], ◌∷◌, ◌++◌, if◌then◌else◌, Str,
  Str_discrete, is_yes, length, map, keep, exists, codes,
}
use deckard.Common.Int.{ℤ, pos}
use deckard.Outcome.{Result, ok, err, panic, getting_storage_data}
use deckard.Dtime.{Readings, Time}
use deckard.Score.{Score}
use deckard.Message.{Message}
use deckard.Storage.{FindOptions}
use deckard.Interfaces.{Cache, Storage}
use deckard.Queue.{Queue, audit_entry, signal_missing_storage, store, with_cache}

abbrev pub is_none_left {ℓ} : {A : Type ℓ} → List A → Bool
is_none_left [] = true
is_none_left (x ∷ xs) = false

module _ {P : Type 0} where
  -- One of the messages has the id.
  unfoldable pub is_found_id : List (Message P) → Str → Bool
  unfolding exists
  is_found_id messages id = exists (λ m. is_yes (Str_discrete m.id id)) messages

  unfoldable pub not_found_ids : List Str → List (Message P) → List Str
  unfolding keep is_found_id
  not_found_ids ids messages = keep (λ id. not (is_found_id messages id)) ids

  -- No pointer to a list where the list is empty.
  abbrev pub non_empty : List (Message P) → Option (List (Message P))
  non_empty [] = none
  non_empty (m ∷ ms) = some (m ∷ ms)

  -- `sort_by_score` is `sort.Slice` with the test of the scores, which need not be stable.
  unfoldable pub merged :
      (List (Message P) → List (Message P)) → List (Message P) → List (Message P) → List (Message P)
  merged sort_by_score messages retried =
      if is_none_left retried then messages else sort_by_score (messages ++ retried)

unfoldable pub ids_filter : Str → List Str → Bool → FindOptions
ids_filter queue ids retry = record {
  sort = some ((codes "score", pos 1) ∷ []);
  limit = pos (length ids);
  internal_filter = some (record {
    internal_id_breakpoint_gt = [];
    internal_id_breakpoint_lte = [];
    ids = some ids;
    queue = queue;
    queue_prefix = [];
    expiry_date = none;
  });
  retry = retry;
}

module _ {P : Type 0} (cache : Cache P) (storage : Storage P) where
  -- The messages found, and the ids that were not.
  unfoldable pub get_from_storage :
      Readings
      → Queue cache.State storage.State
      → List Str
      → Str
      → Bool
      → Result (List (Message P) × List Str)
  unfolding ids_filter not_found_ids
  get_from_storage now pool ids queue retry =
      elim (storage.find now pool.storage (some (ids_filter queue ids retry))) [
        | ok messages ↦ ok (messages, not_found_ids ids messages)
        | err e ↦ err (getting_storage_data e)
        | panic ↦ panic
      ]

  -- What is left after a second search: the entries of the cache that no search found go, whatever the
  -- cache answers.
  unfoldable pub drop_missing :
      Queue cache.State storage.State → Str → List Str → Queue cache.State storage.State
  drop_missing pool queue missing =
      if is_none_left missing
      then pool
      else store (map (audit_entry signal_missing_storage [] queue) missing)
          (with_cache (cache.remove pool.cache queue missing).0 pool)

  -- From the messages that the first search found and the ids that it did not.
  unfoldable pub retry_not_found :
      (List (Message P) → List (Message P))
      → Readings
      → Queue cache.State storage.State
      → Str
      → List (Message P)
      → List Str
      → Queue cache.State storage.State × Result (Option (List (Message P)))
  unfolding get_from_storage drop_missing merged
  retry_not_found sort_by_score retried_at pool queue messages [] = (pool, ok (some messages))
  retry_not_found sort_by_score retried_at pool queue messages (id ∷ not_found) =
      elim (get_from_storage retried_at pool (id ∷ not_found) queue true) [
        | err e ↦ (pool, err e)
        | panic ↦ (pool, panic)
        | ok (retried, missing) ↦ (
          drop_missing pool queue missing,
          ok (non_empty (merged sort_by_score messages retried)),
        )
      ]

  -- From the ids that the cache gave, of which there are some.
  unfoldable pub pull_ids :
      (List (Message P) → List (Message P))
      → Readings
      → Readings
      → Queue cache.State storage.State
      → Str
      → List Str
      → Queue cache.State storage.State × Result (Option (List (Message P)))
  unfolding get_from_storage retry_not_found
  pull_ids sort_by_score found_at retried_at pool queue ids =
      elim (get_from_storage found_at pool ids queue false) [
        | err e ↦ (pool, err e)
        | panic ↦ (pool, panic)
        | ok (messages, not_found) ↦
            retry_not_found sort_by_score retried_at pool queue messages not_found
      ]

  unfoldable pub pull :
      (List (Message P) → List (Message P))
      → (ℕ → Time)
      → Readings
      → Readings
      → Queue cache.State storage.State
      → Str
      → ℤ
      → Option Score
      → Option Score
      → ℤ
      → Queue cache.State storage.State × Result (Option (List (Message P)))
  unfolding pull_ids
  pull sort_by_score clock found_at retried_at pool queue n min_score max_score ack_deadline_ms =
      let r = cache.pull_messages clock pool.cache queue n min_score max_score ack_deadline_ms in
      let pulled = with_cache r.0 pool in
      elim r.1 [
        | err e ↦ (pulled, err e)
        | panic ↦ (pulled, panic)
        | ok ids ↦
            if is_none_left ids
            then (pulled, ok none)
            else pull_ids sort_by_score found_at retried_at pulled queue ids
      ]
