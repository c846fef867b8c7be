-- ===== src/MemoryCache/Releasing.antt =====
-- What unlocking and timeouts do: which entries move, how many, and with which score.
use deckard.Common.{
  Bool, Option-cases, inl, inr, refl, suc, ◌+◌, ◌≤◌, ◌≡◌, ◌≢◌, none, some, List, [], ◌∷◌, ite, Str,
  Str_discrete, arith,
}
use deckard.Common.Int.{ℤ}
use deckard.Common.Maps.{Map, lookup, insert, lookup-insert}
use deckard.Dtime.{Time, unix, time_to_ms}
use deckard.Score.{Score, min_score, get_score_by_default_algorithm}
use deckard.Entries.{Entry, Pool, values, insert_entry}
use deckard.Entries.Counts.{copies}
use deckard.MemoryCache.{MemoryCache, LockType, lock_ack, lock_nack, index, lock_map, set_lock_map}
use deckard.MemoryCache.Copies.{
  entries, copies_at, total, OneCopy, copies_at-enter, copies_at-leave,
}
use deckard.MemoryCache.Release.{
  lock_over, take_first, rescored, unlock_first, unlock_each, unlock_messages, timed_out,
  timeout_messages,
}

-- The entry that is taken stood in the list.
pub take_first-copies :
    (test : Entry → Bool) (es : List Entry) (x : Entry) (others : List Entry) (id : Str)
    → take_first test es ≡ some (x, others)
    → copies id es ≡ ite (Str_discrete x.id id) (suc (copies id others)) (copies id others)
unfolding take_first copies
take_first-copies test [] x others id h = cc
take_first-copies test (e ∷ es) x others id h = elim (Option-cases (take_first test es)) [
  | inl no_more ↦ ground (arith, no_more)
  | inr ((y, ys), more) ↦ ground (arith, more, take_first-copies test es y ys id more)
]

-- `TimeoutMessages` moves one entry from the processing pool to the primary pool, or none: no copy of any id
-- is lost or made.
pub total-timeout_messages :
    (now : Time) (c : MemoryCache) (queue q id : Str)
    → OneCopy c
    → total (timeout_messages now c queue).0 q id ≡ total c q id
unfolding timeout_messages total
total-timeout_messages now c queue q id h =
    elim (Option-cases (take_first (timed_out (unix now)) (entries c.processing_queues queue))) [
      | inl e ↦ rw (e, timeout_messages)
      | inr ((x, others), e) ↦
          let value = record x { score = min_score } in
          let had : 1 ≤ copies_at c.processing_queues queue x.id =
            unfold copies_at in
            ground (
              arith,
              take_first-copies (timed_out (unix now)) (entries c.processing_queues queue) x others
                  x.id e,
            ) in
          rw (e, timeout_messages)
            (ground (
              arith,
              h queue x.id,
              copies_at-enter queue value c.queues q id,
              copies_at-leave queue value c.processing_queues q id,
            ))
    ]

-- The keys of a map are distinct, as those of a Go map are.
abbrev pub Keyed : Map Pool → Type 0
Keyed [] = Unit
Keyed ((k, p) ∷ m) = (lookup k m ≡ none) × Keyed m

pub lookup-insert-none :
    (k j : Str) (p : Pool) (m : Map Pool)
    → j ≢ k
    → lookup j m ≡ none
    → lookup j (insert k p m) ≡ none
lookup-insert-none k j p m h e = ground (arith, lookup-insert k j p m)

pub insert-Keyed : (k : Str) (p : Pool) (m : Map Pool) → Keyed m → Keyed (insert k p m)
unfolding insert lookup
insert-Keyed k p [] h = ground arith
insert-Keyed k p ((j, r) ∷ m) h = ground (arith, insert-Keyed k p m, lookup-insert-none k j p m)

unlock_first-copies :
    (now_ms : ℤ) (p : Pool) (x : Entry) (others : List Entry) (id : Str)
    → unlock_first now_ms p ≡ some (x, others)
    → copies id (values p) ≡ ite (Str_discrete x.id id) (suc (copies id others)) (copies id others)
unfolding unlock_first
unlock_first-copies now_ms p x others id h =
    take_first-copies (lock_over now_ms) (values p) x others id h

rescored-id : (s : Score) (x : Entry) → (rescored s x).id ≡ x.id
unfolding rescored
rescored-id s x = ground arith

pub unlock_each-keys :
    (now_ms : ℤ) (s : Score) (m qs : Map Pool) (k : Str)
    → lookup k m ≡ none
    → lookup k (unlock_each now_ms s m qs).locked ≡ none
unfolding unlock_each lookup
unlock_each-keys now_ms s [] qs k h = refl
unlock_each-keys now_ms s ((j, p) ∷ m) qs k h = elim (Option-cases (unlock_first now_ms p)) [
  | inl e ↦ rw (e, unlock_each) (ground (arith, unlock_each-keys now_ms s m qs k))
  | inr ((x, others), e) ↦
      rw (e, unlock_each)
        (ground (
          arith,
          unlock_each-keys now_ms s m (insert j (insert_entry (rescored s x) (index qs j)).0 qs) k,
        ))
]

pub cons-copies_at :
    (k : Str) (p : Pool) (m : Map Pool) (q id : Str)
    → copies_at ((k, p) ∷ m) q id ≡ ite (Str_discrete k q) (copies id (values p)) (copies_at m q id)
unfolding copies_at lookup
cons-copies_at k p m q id = ground arith

pub none-copies_at : (m : Map Pool) (q id : Str) → lookup q m ≡ none → copies_at m q id ≡ 0
unfolding copies_at copies
none-copies_at m q id h = ground arith

-- The map entry of a key that is in none of the maps, before and after the loop over the rest.
module _ (j : Str) (m qs L Q : Map Pool) (q id : Str) (fresh : lookup j m ≡ none)
    (left : lookup j L ≡ none) where
  stay-copies :
      (p : Pool)
      → copies_at L q id + copies_at Q q id ≡ copies_at m q id + copies_at qs q id
      → copies_at ((j, p) ∷ L) q id + copies_at Q q id
        ≡ copies_at ((j, p) ∷ m) q id + copies_at qs q id
  stay-copies p ih = ground (
    arith,
    cons-copies_at j p m q id,
    cons-copies_at j p L q id,
    none-copies_at m q id,
    none-copies_at L q id,
  )

  move-copies :
      (p : Pool) (y : Entry) (others : List Entry)
      → copies id (values p)
        ≡ ite (Str_discrete y.id id) (suc (copies id others)) (copies id others)
      → copies_at ((j, p) ∷ m) q id + copies_at qs q id ≤ 1
      → copies_at L q id + copies_at Q q id
        ≡ copies_at m q id + copies_at (insert j (insert_entry y (index qs j)).0 qs) q id
      → copies_at ((j, some others) ∷ L) q id + copies_at Q q id
        ≡ copies_at ((j, p) ∷ m) q id + copies_at qs q id
  move-copies p y others taken one ih = ground (
    arith,
    cons-copies_at j p m q id,
    cons-copies_at j (some others) L q id,
    none-copies_at m q id,
    none-copies_at L q id,
    copies_at-enter j y qs q id,
  )

  enter-one :
      (p : Pool) (y : Entry) (others : List Entry)
      → copies id (values p)
        ≡ ite (Str_discrete y.id id) (suc (copies id others)) (copies id others)
      → copies_at ((j, p) ∷ m) q id + copies_at qs q id ≤ 1
      → copies_at m q id + copies_at (insert j (insert_entry y (index qs j)).0 qs) q id ≤ 1
  enter-one p y others taken one =
      ground (arith, cons-copies_at j p m q id, none-copies_at m q id, copies_at-enter j y qs q id)

  stay-one :
      (p : Pool)
      → copies_at ((j, p) ∷ m) q id + copies_at qs q id ≤ 1
      → copies_at m q id + copies_at qs q id ≤ 1
  stay-one p one = ground (arith, cons-copies_at j p m q id, none-copies_at m q id)

taken-copies :
    (now_ms : ℤ) (s : Score) (p : Pool) (x : Entry) (others : List Entry) (id : Str)
    → unlock_first now_ms p ≡ some (x, others)
    → copies id (values p)
      ≡ ite (Str_discrete (rescored s x).id id) (suc (copies id others)) (copies id others)
taken-copies now_ms s p x others id h =
    rw (rescored-id s x) (unlock_first-copies now_ms p x others id h)

-- Over the loop the locked and the primary lists of a queue together keep the copies of every id.
pub unlock_each-copies :
    (now_ms : ℤ) (s : Score) (m qs : Map Pool) (q id : Str)
    → Keyed m
    → ((k i : Str) → copies_at m k i + copies_at qs k i ≤ 1)
    → copies_at (unlock_each now_ms s m qs).locked q id
        + copies_at (unlock_each now_ms s m qs).queues q id
      ≡ copies_at m q id + copies_at qs q id
unfolding unlock_each
unlock_each-copies now_ms s [] qs q id u h = refl
unlock_each-copies now_ms s ((j, p) ∷ m) qs q id u h = elim (Option-cases (unlock_first now_ms p)) [
  | inl e ↦
      let r = unlock_each now_ms s m qs in
      rw (e, unlock_each)
        (stay-copies j m qs r.locked r.queues q id u.0 (unlock_each-keys now_ms s m qs j u.0) p (
          unlock_each-copies now_ms s m qs q id u.1
            (λ k i. stay-one j m qs m qs k i u.0 u.0 p (h k i))))
  | inr ((x, others), e) ↦
      let qs' = insert j (insert_entry (rescored s x) (index qs j)).0 qs in
      let r = unlock_each now_ms s m qs' in
      let taken = λ (i : Str). taken-copies now_ms s p x others i e in
      rw (e, unlock_each)
        (move-copies j m qs r.locked r.queues q id u.0 (unlock_each-keys now_ms s m qs' j u.0) p
          (rescored s x) others (taken id) (h q id)
          (unlock_each-copies now_ms s m qs' q id u.1
            (λ k i. enter-one j m qs m qs k i u.0 u.0 p (rescored s x) others (taken i) (h k i))))
]

-- `UnlockMessages` moves entries from the lock pools of its lock type to the primary pools of their
-- queues: no copy of any id is lost or made, in any queue, if the keys of the lock pools are distinct.
pub total-unlock_messages :
    (scored_at now : Time) (c : MemoryCache) (queue : Str) (t : LockType) (q id : Str)
    → Keyed (lock_map t c)
    → OneCopy c
    → total (unlock_messages scored_at now c queue t).0 q id ≡ total c q id
unfolding unlock_messages total lock_map set_lock_map
total-unlock_messages scored_at now c queue lock_ack q id u h = omega (
  arith,
  unlock_each-copies (time_to_ms now) (get_score_by_default_algorithm scored_at) c.lock_ack_queues
      c.queues q id u (λ k i. omega (arith, h k i)),
)
total-unlock_messages scored_at now c queue lock_nack q id u h = omega (
  arith,
  unlock_each-copies (time_to_ms now) min_score c.lock_nack_queues c.queues q id u
      (λ k i. omega (arith, h k i)),
)
