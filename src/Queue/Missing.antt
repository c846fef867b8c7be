-- ===== src/Queue/Missing.antt =====
-- What a pull does with the ids that the storage does not have, over any cache and any storage.
use deckard.Common.{
  ℕ, ◌≡◌, refl, sym, ap, ◌∙◌, Bool, true, false, not, ◌||◌, ◌&&◌, Option, none, some, List, [], ◌∷◌,
  ◌++◌, if◌then◌else◌, Str, Str_discrete, is_yes, arith, map, exists, inl, inr,
}
use mathlib.Core.List.{Perm}
use deckard.Common.Perms.{exists-append, exists-perm_eq, keep-keep, keep-ext, append-nil}
use deckard.Common.Int.{ℤ}
use deckard.Outcome.{ok, Result-cases}
use deckard.Dtime.{Readings, Time}
use deckard.Score.{Score}
use deckard.Message.{Message}
use deckard.Interfaces.{Cache, Storage}
use deckard.Queue.{Queue, audit_entry, signal_missing_storage}
use deckard.Queue.Pull.{
  is_found_id, ids_filter, not_found_ids, get_from_storage, is_none_left, drop_missing, merged,
  pull_ids, pull, retry_not_found, non_empty,
}

module _ {P : Type 0} (sort_by_score : List (Message P) → List (Message P))
    (permutes : (ms : List (Message P)) → Perm (sort_by_score ms) ms) where
  found-merged :
      (ms ks : List (Message P)) (id : Str)
      → is_found_id (merged sort_by_score ms ks) id ≡ (is_found_id ms id || is_found_id ks id)
  unfolding is_found_id merged exists
  found-merged ms [] id = ground arith
  found-merged ms (k ∷ ks) id =
      exists-perm_eq (λ m. is_yes (Str_discrete m.id id)) (permutes (ms ++ k ∷ ks))
      ∙ exists-append (λ m. is_yes (Str_discrete m.id id)) ms (k ∷ ks)

  -- The ids that two searches miss are those that no message of their merged results has.
  not_found_ids-merged :
      (ids : List Str) (ms ks : List (Message P))
      → not_found_ids (not_found_ids ids ms) ks ≡ not_found_ids ids (merged sort_by_score ms ks)
  unfolding not_found_ids is_found_id merged
  not_found_ids-merged ids ms ks =
      keep-keep (λ id. not (is_found_id ks id)) (λ id. not (is_found_id ms id)) ids
      ∙ keep-ext (λ id. not (is_found_id ms id) && not (is_found_id ks id))
          (λ id. not (is_found_id (merged sort_by_score ms ks) id)) ids
          (λ id. ground (arith, found-merged ms ks id))

-- The messages of a pull's result, which may be no list.
abbrev pub returned : {P : Type 0} → Option (List (Message P)) → List (Message P)
returned none = []
returned (some ms) = ms

module _ {P : Type 0} (cache : Cache P) (storage : Storage P)
    (sort_by_score : List (Message P) → List (Message P))
    (permutes : (ms : List (Message P)) → Perm (sort_by_score ms) ms) where
  -- What a pull leaves, given what the cache gave and the ids that are missing.
  abbrev pub left :
      cache.State
      → Queue cache.State storage.State
      → Str
      → List Str
      → Queue cache.State storage.State
  left c pool queue missing = record {
    cache = if is_none_left missing then c else (cache.remove c queue missing).0;
    storage = pool.storage;
    audited = pool.audited ++ map (audit_entry signal_missing_storage [] queue) missing;
  }

  drop_missing-left :
      (pool : Queue cache.State storage.State) (queue : Str) (missing : List Str)
      → drop_missing cache storage pool queue missing ≡ left pool.cache pool queue missing
  unfolding drop_missing
  drop_missing-left pool queue [] =
      ap (λ a. record pool { audited = a }) (sym (append-nil pool.audited))
  drop_missing-left pool queue (i ∷ missing) = refl

  get_from_storage-missing :
      (now : Readings) (pool : Queue cache.State storage.State) (ids : List Str) (queue : Str)
      (retry : Bool) (ms : List (Message P)) (not_found : List Str)
      → get_from_storage cache storage now pool ids queue retry ≡ ok (ms, not_found)
      → not_found ≡ not_found_ids ids ms
  unfolding get_from_storage
  get_from_storage-missing now pool ids queue retry ms not_found e =
      elim (Result-cases (storage.find now pool.storage (some (ids_filter queue ids retry)))) [
        | inl (a, f) ↦ ground (arith, e, f)
        | inr (inl (x, f)) ↦ ground (arith, e, f)
        | inr (inr f) ↦ ground (arith, e, f)
      ]

  returned-non_empty : (ms : List (Message P)) → returned (non_empty ms) ≡ ms
  returned-non_empty [] = refl
  returned-non_empty (m ∷ ms) = refl

  retry_not_found-left :
      (retried_at : Readings) (pool : Queue cache.State storage.State) (queue : Str)
      (ids : List Str) (ms : List (Message P)) (not_found : List Str)
      (found : Option (List (Message P)))
      → not_found ≡ not_found_ids ids ms
      → (retry_not_found cache storage sort_by_score retried_at pool queue ms not_found).1
        ≡ ok found
      → (retry_not_found cache storage sort_by_score retried_at pool queue ms not_found).0
        ≡ left pool.cache pool queue (not_found_ids ids (returned found))
  unfolding retry_not_found
  retry_not_found-left retried_at pool queue ids ms [] found h e =
      ground (arith, h, e, append-nil pool.audited)
  retry_not_found-left retried_at pool queue ids ms (id ∷ rest) found h e =
      elim (Result-cases (get_from_storage cache storage retried_at pool (id ∷ rest) queue true)) [
        | inr (inl (x, g)) ↦ ground (arith, e, g)
        | inr (inr g) ↦ ground (arith, e, g)
        | inl ((ks, missing), g) ↦ ground (
          arith,
          e,
          g,
          not_found_ids-merged sort_by_score permutes ids ms ks,
          get_from_storage-missing retried_at pool (id ∷ rest) queue true ks missing g,
          returned-non_empty (merged sort_by_score ms ks),
          drop_missing-left pool queue missing,
        )
      ]

  pull_ids-left :
      (found_at retried_at : Readings) (pool : Queue cache.State storage.State) (queue : Str)
      (ids : List Str) (found : Option (List (Message P)))
      → (pull_ids cache storage sort_by_score found_at retried_at pool queue ids).1 ≡ ok found
      → (pull_ids cache storage sort_by_score found_at retried_at pool queue ids).0
        ≡ left pool.cache pool queue (not_found_ids ids (returned found))
  unfolding pull_ids
  pull_ids-left found_at retried_at pool queue ids found e =
      elim (Result-cases (get_from_storage cache storage found_at pool ids queue false)) [
        | inr (inl (x, f)) ↦ ground (arith, e, f)
        | inr (inr f) ↦ ground (arith, e, f)
        | inl ((ms, not_found), f) ↦ ground (
          arith,
          e,
          f,
          retry_not_found-left retried_at pool queue ids ms not_found found
              (get_from_storage-missing found_at pool ids queue false ms not_found f),
        )
      ]

  -- A pull that returns no error audits as missing exactly those ids, of the ones that the cache gave it, that no returned
  -- message has, removes them from the cache, and leaves the storage as it is; `sort.Slice` is taken to permute.
  pub pull-left :
      (clock : ℕ → Time) (found_at retried_at : Readings) (pool : Queue cache.State storage.State)
      (queue : Str) (n : ℤ) (min_score max_score : Option Score) (ack_deadline_ms : ℤ)
      (c : cache.State) (ids : List Str) (found : Option (List (Message P)))
      → cache.pull_messages clock pool.cache queue n min_score max_score ack_deadline_ms
        ≡ (c, ok ids)
      → (pull cache storage sort_by_score clock found_at retried_at pool queue n min_score max_score
          ack_deadline_ms).1
        ≡ ok found
      → (pull cache storage sort_by_score clock found_at retried_at pool queue n min_score max_score
          ack_deadline_ms).0
        ≡ left c pool queue (not_found_ids ids (returned found))
  unfolding pull
  pull-left clock found_at retried_at pool queue n min_score max_score ack_deadline_ms c [] found h
        e =
      ground (arith, h, e, append-nil pool.audited)
  pull-left clock found_at retried_at pool queue n min_score max_score ack_deadline_ms c (i ∷ ids)
        found h e =
      ground (
        arith,
        h,
        e,
        pull_ids-left found_at retried_at (record pool { cache = c }) queue (i ∷ ids) found,
      )
