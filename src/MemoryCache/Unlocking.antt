-- ===== src/MemoryCache/Unlocking.antt =====
-- Which entries unlocking moves.
use deckard.Common.{
  Bool, Option-cases, inl, inr, refl, ap, ◌+◌, ◌≡◌, List, [], ◌∷◌, ◌++◌, Str, arith, exists,
}
use deckard.Common.Int.{ℤ}
use deckard.Common.Maps.{Map, lookup, insert}
use deckard.Outcome.{ok}
use deckard.Dtime.{Time, time_to_ms}
use deckard.Score.{Score, min_score, get_score_by_default_algorithm}
use deckard.Entries.{Entry, Pool, values, insert_entry}
use deckard.Entries.Counts.{copies}
use deckard.MemoryCache.{MemoryCache, LockType, lock_ack, lock_nack, index, lock_map, set_lock_map}
use deckard.MemoryCache.Copies.{entries, copies_at, total, OneCopy}
use deckard.MemoryCache.Release.{lock_over, rescored, unlock_first, unlock_each, unlock_messages}
use deckard.MemoryCache.Releasing.{Keyed, take_first-copies, unlock_each-copies}
use deckard.MemoryCache.Moves.{first_id, moved, first_id-none, first_id-some}

-- One such id of each list of the map.
unfoldable pub first_ids : (Entry → Bool) → Map Pool → List Str
first_ids test [] = []
first_ids test ((q, p) ∷ m) = first_id test (values p) ++ first_ids test m

-- The other lock type.
abbrev pub other_lock : LockType → LockType
other_lock lock_ack = lock_nack
other_lock lock_nack = lock_ack

unlock_each-ids :
    (now_ms : ℤ) (s : Score) (m qs : Map Pool)
    → (unlock_each now_ms s m qs).ids ≡ first_ids (lock_over now_ms) m
unfolding unlock_each first_ids unlock_first
unlock_each-ids now_ms s [] qs = refl
unlock_each-ids now_ms s ((j, p) ∷ m) qs = elim (Option-cases (unlock_first now_ms p)) [
  | inl e ↦
      rw (e, unlock_each, first_id-none (lock_over now_ms) (values p) e)
        (unlock_each-ids now_ms s m qs)
  | inr ((x, others), e) ↦
      let qs' = insert j (insert_entry (rescored s x) (index qs j)).0 qs in
      rw (e, unlock_each, first_id-some (lock_over now_ms) (values p) x others e)
        (ground (arith, unlock_each-ids now_ms s m qs'))
]

-- What the loop takes from the list of a queue.
unlock_each-left :
    (now_ms : ℤ) (s : Score) (m qs : Map Pool) (q id : Str)
    → Keyed m
    → copies_at (unlock_each now_ms s m qs).locked q id
        + moved q (first_id (lock_over now_ms) (entries m q)) q id
      ≡ copies_at m q id
unfolding unlock_each unlock_first copies_at exists first_id lookup copies
unlock_each-left now_ms s [] qs q id u = ground arith
unlock_each-left now_ms s ((j, p) ∷ m) qs q id u = elim (Option-cases (unlock_first now_ms p)) [
  | inl e ↦
      rw (e, unlock_each)
        (ground (
          arith,
          first_id-none (lock_over now_ms) (values p) e,
          unlock_each-left now_ms s m qs q id u.1,
        ))
  | inr ((x, others), e) ↦
      let qs' = insert j (insert_entry (rescored s x) (index qs j)).0 qs in
      rw (e, unlock_each)
        (ground (
          arith,
          first_id-some (lock_over now_ms) (values p) x others e,
          take_first-copies (lock_over now_ms) (values p) x others id e,
          unlock_each-left now_ms s m qs' q id u.1,
        ))
]

-- `UnlockMessages` moves entries from the lists of its lock type to the primary pools: from the list of each queue the first entry
-- whose lock is over, if there is one, and nothing else: every other id has as many copies in each pool as before. No id may have
-- two copies before the call, and the keys of the lock pools are distinct.
pub unlock_messages-moved :
    (scored_at now : Time) (c : MemoryCache) (queue : Str) (t : LockType) (q id : Str)
    → Keyed (lock_map t c)
    → OneCopy c
    → let after = (unlock_messages scored_at now c queue t).0 in
      let ids = first_id (lock_over (time_to_ms now)) (entries (lock_map t c) q) in
      (copies_at (lock_map t after) q id + moved q ids q id ≡ copies_at (lock_map t c) q id)
      × (copies_at after.queues q id ≡ copies_at c.queues q id + moved q ids q id)
      × (after.processing_queues ≡ c.processing_queues)
      × (lock_map (other_lock t) after ≡ lock_map (other_lock t) c)
unfolding unlock_messages total lock_map set_lock_map
unlock_messages-moved scored_at now c queue lock_ack q id u h =
    let s = get_score_by_default_algorithm scored_at in
    let left = unlock_each-left (time_to_ms now) s c.lock_ack_queues c.queues q id u in
    let all =
      unlock_each-copies (time_to_ms now) s c.lock_ack_queues c.queues q id u
        (λ k i. omega (arith, h k i)) in
    (left, omega (arith, left, all), refl, refl)
unlock_messages-moved scored_at now c queue lock_nack q id u h =
    let left = unlock_each-left (time_to_ms now) min_score c.lock_nack_queues c.queues q id u in
    let all =
      unlock_each-copies (time_to_ms now) min_score c.lock_nack_queues c.queues q id u
        (λ k i. omega (arith, h k i)) in
    (left, omega (arith, left, all), refl, refl)

-- `UnlockMessages` ignores the queue that it is called with: it returns, from each list of the lock type that has an entry whose
-- lock is over, the id of the first such entry, and of no other, however many have one.
pub unlock_messages-first_ids :
    (scored_at now : Time) (c : MemoryCache) (queue other : Str) (t : LockType)
    → ((unlock_messages scored_at now c queue t).1
        ≡ ok (first_ids (lock_over (time_to_ms now)) (lock_map t c)))
      × (unlock_messages scored_at now c other t ≡ unlock_messages scored_at now c queue t)
unfolding unlock_messages
unlock_messages-first_ids scored_at now c queue other t =
    (ap ok (unlock_each-ids (time_to_ms now) _ (lock_map t c) c.queues), refl)
