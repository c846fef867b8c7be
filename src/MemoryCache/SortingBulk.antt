-- ===== src/MemoryCache/SortingBulk.antt =====
-- Pulls, releases and insertions keep every list of the cache in the order of its scores.
use deckard.Common.{
  ◌==◌, Bool, not, Bool-cases, Option-cases, inl, inr, ℕ, zero, suc, ◌≡◌, ◌≢◌, sym, Option, none,
  some, List, [], ◌∷◌, if◌then◌else◌, Str, Str_discrete, is_yes, arith, length, exists, drop, subst,
}
use deckard.Common.Int.{ℤ, pos, ltb_ℤ, eqb_ℤ}
use deckard.Common.Maps.{Map, lookup}
use deckard.Dtime.{Time, unix, time_to_ms}
use deckard.Score.{Score, out_of_range, min_score, get_score_by_default_algorithm}
use deckard.Message.{Message}
use deckard.Entries.{Entry, Pool, values, create_entry}
use deckard.Entries.Order.{IsSorted, AtLeast}
use deckard.MemoryCache.{MemoryCache, LockType, lock_ack, lock_nack, lock_map, set_lock_map}
use deckard.MemoryCache.Copies.{entries}
use deckard.MemoryCache.Pull.{
  pull_messages, pull_loop, processing_entry, rounds, min_int64, default_timeout_ms,
}
use deckard.MemoryCache.Release.{
  take_first, rescored, unlock_first, unlock_each, unlock_messages, lock_over, timed_out,
  timeout_messages,
}
use deckard.MemoryCache.Insert.{insert_messages, insertions, insert_cache}
use deckard.MemoryCache.Releasing.{Keyed}
use deckard.MemoryCache.Pulling.{insert_all-IsSorted}
use deckard.MemoryCache.Sorting.{
  InOrder, Ordered, insert-InOrder, enter-InOrder, leave-InOrder, if-Ordered, primary-Ordered,
}

drop-IsSorted : (n : ℕ) (es : List Entry) → IsSorted es → IsSorted (drop n es)
unfolding drop
drop-IsSorted zero es h = h
drop-IsSorted (suc n) [] h = h
drop-IsSorted (suc n) (e ∷ es) h = drop-IsSorted n es h.1

pull_loop-InOrder :
    (clock : ℕ → Time) (queue : Str) (lo hi : Option Score) (deadline : ℤ) (i n : ℕ)
    (es : List Entry) (pr : Map Pool)
    → InOrder pr
    → IsSorted es
    → InOrder (pull_loop clock queue lo hi deadline i n es pr).processing
      × IsSorted (pull_loop clock queue lo hi deadline i n es pr).rest
unfolding pull_loop
pull_loop-InOrder clock queue lo hi deadline i zero es pr h s = (h, s)
pull_loop-InOrder clock queue lo hi deadline i (suc n) [] pr h s = (h, s)
pull_loop-InOrder clock queue lo hi deadline i (suc n) (e ∷ es) pr h s =
    elim (Bool-cases (out_of_range lo hi e.score)) [
      | inl out ↦ rw out (pull_loop-InOrder clock queue lo hi deadline (suc i) n es pr h s.1)
      | inr in_range ↦ rw in_range (
          pull_loop-InOrder clock queue lo hi deadline (suc i) n es _
            (enter-InOrder queue (processing_entry (clock i) deadline e) pr h) s.1)
    ]

pub pull_messages-Ordered :
    (clock : ℕ → Time) (c : MemoryCache) (queue : Str) (n : ℤ) (lo hi : Option Score) (deadline : ℤ)
    → Ordered c
    → Ordered (pull_messages clock c queue n lo hi deadline).0
unfolding pull_messages
pull_messages-Ordered clock c queue n lo hi deadline o =
    let d = if eqb_ℤ deadline (pos 0) then default_timeout_ms else deadline in
    let r =
      pull_loop clock queue lo hi d 0 (rounds n) (entries c.queues queue) c.processing_queues in
    let h =
      pull_loop-InOrder clock queue lo hi d 0 (rounds n) (entries c.queues queue)
        c.processing_queues o.processing (o.queues queue) in
    if-Ordered (length (entries c.queues queue) == 0) _ _ o (
      if-Ordered (ltb_ℤ (min_int64 n (pos (length (entries c.queues queue)))) (pos 0)) _ _ o
        (record {
          queues =
              insert-InOrder queue _ c.queues o.queues
                (insert_all-IsSorted r.filtered_out (some r.rest) h.1);
          processing = h.0;
          locked_ack = o.locked_ack;
          locked_nack = o.locked_nack;
        }))

take_first-AtLeast :
    (b : Score) (test : Entry → Bool) (es : List Entry) (x : Entry) (others : List Entry)
    → take_first test es ≡ some (x, others)
    → AtLeast b es
    → AtLeast b others
unfolding take_first
take_first-AtLeast b test [] x others h k = cc
take_first-AtLeast b test (e ∷ es) x others h k = elim (Option-cases (take_first test es)) [
  | inl no_more ↦ ground (arith, no_more)
  | inr ((y, ys), more) ↦ ground (arith, more, take_first-AtLeast b test es y ys more k.1)
]

take_first-IsSorted :
    (test : Entry → Bool) (es : List Entry) (x : Entry) (others : List Entry)
    → take_first test es ≡ some (x, others)
    → IsSorted es
    → IsSorted others
unfolding take_first
take_first-IsSorted test [] x others h k = cc
take_first-IsSorted test (e ∷ es) x others h k = elim (Option-cases (take_first test es)) [
  | inl no_more ↦ ground (arith, no_more)
  | inr ((y, ys), more) ↦ ground (
    arith,
    more,
    take_first-IsSorted test es y ys more k.1,
    take_first-AtLeast e.score test es y ys more k.0,
  )
]

pub timeout_messages-Ordered :
    (now : Time) (c : MemoryCache) (queue : Str)
    → Ordered c
    → Ordered (timeout_messages now c queue).0
unfolding timeout_messages
timeout_messages-Ordered now c queue o =
    elim (Option-cases (take_first (timed_out (unix now)) (entries c.processing_queues queue))) [
      | inl e ↦ rw (e, timeout_messages) o
      | inr ((x, others), e) ↦
          let value = record x { score = min_score } in
          rw (e, timeout_messages)
            (record {
              queues = enter-InOrder queue value c.queues o.queues;
              processing = leave-InOrder queue value c.processing_queues o.processing;
              locked_ack = o.locked_ack;
              locked_nack = o.locked_nack;
            })
    ]

-- The lists of the map one by one, of which `InOrder` sees the first of each key.
abbrev EachSorted : Map Pool → Type 0
EachSorted [] = Unit
EachSorted ((q, p) ∷ m) = IsSorted (values p) × EachSorted m

lookup-cons_self : (q : Str) (p : Pool) (m : Map Pool) → entries ((q, p) ∷ m) q ≡ values p
unfolding lookup
lookup-cons_self q p m = ground arith

lookup-cons_ne :
    (q k : Str) (p : Pool) (m : Map Pool) → q ≢ k → entries ((q, p) ∷ m) k ≡ entries m k
unfolding lookup
lookup-cons_ne q k p m h = ground arith

entries-none : (m : Map Pool) (q : Str) → lookup q m ≡ none → entries m q ≡ []
entries-none m q h = ground arith

EachSorted-of_InOrder : (m : Map Pool) → Keyed m → InOrder m → EachSorted m
EachSorted-of_InOrder [] u h = tt
EachSorted-of_InOrder ((q, p) ∷ m) u h = (
  subst IsSorted (lookup-cons_self q p m) (h q),
  EachSorted-of_InOrder m u.1 (λ k. elim (Str_discrete q k) [
    | yes e ↦ rw (← e) (subst IsSorted (sym (entries-none m q u.0)) tt)
    | no e ↦ subst IsSorted (lookup-cons_ne q k p m e) (h k)
  ]),
)

InOrder-of_EachSorted : (m : Map Pool) → EachSorted m → InOrder m
unfolding lookup
InOrder-of_EachSorted [] h k = tt
InOrder-of_EachSorted ((q, p) ∷ m) h k = elim (Str_discrete q k) [
  | yes e ↦ rw (← e, lookup-cons_self q p m) h.0
  | no e ↦ rw (lookup-cons_ne q k p m e) (InOrder-of_EachSorted m h.1 k)
]

unlock_each-sorted :
    (now_ms : ℤ) (s : Score) (m qs : Map Pool)
    → EachSorted m
    → InOrder qs
    → EachSorted (unlock_each now_ms s m qs).locked × InOrder (unlock_each now_ms s m qs).queues
unfolding unlock_each
unlock_each-sorted now_ms s [] qs h k = (tt, k)
unlock_each-sorted now_ms s ((j, p) ∷ m) qs h k = elim (Option-cases (unlock_first now_ms p)) [
  | inl e ↦ let r = unlock_each-sorted now_ms s m qs h.1 k in rw (e, unlock_each) ((h.0, r.0), r.1)
  | inr ((x, others), e) ↦
      let r = unlock_each-sorted now_ms s m _ h.1 (enter-InOrder j (rescored s x) qs k) in
      rw (e, unlock_each)
        (
          (
            unfold unlock_first in take_first-IsSorted (lock_over now_ms) (values p) x others e h.0,
            r.0,
          ),
          r.1,
        )
]

pub unlock_messages-Ordered :
    (scored_at now : Time) (c : MemoryCache) (queue : Str) (t : LockType)
    → Keyed (lock_map t c)
    → Ordered c
    → Ordered (unlock_messages scored_at now c queue t).0
unfolding unlock_messages lock_map set_lock_map
unlock_messages-Ordered scored_at now c queue lock_ack u o =
    let r =
      unlock_each-sorted (time_to_ms now) (get_score_by_default_algorithm scored_at)
        c.lock_ack_queues c.queues (EachSorted-of_InOrder c.lock_ack_queues u o.locked_ack)
        o.queues in
    record {
      queues = r.1;
      processing = o.processing;
      locked_ack = InOrder-of_EachSorted _ r.0;
      locked_nack = o.locked_nack;
    }
unlock_messages-Ordered scored_at now c queue lock_nack u o =
    let r =
      unlock_each-sorted (time_to_ms now) min_score c.lock_nack_queues c.queues
        (EachSorted-of_InOrder c.lock_nack_queues u o.locked_nack) o.queues in
    record {
      queues = r.1;
      processing = o.processing;
      locked_ack = o.locked_ack;
      locked_nack = InOrder-of_EachSorted _ r.0;
    }

insert_messages-InOrder :
    {P : Type 0} (ms : List (Message P)) (qs : Map Pool)
    → InOrder qs
    → InOrder (insert_messages ms qs)
unfolding insert_messages
insert_messages-InOrder [] qs h = h
insert_messages-InOrder (m ∷ ms) qs h =
    insert_messages-InOrder ms _ (enter-InOrder m.queue (create_entry m) qs h)

pub insert_cache-Ordered :
    {P : Type 0} (c : MemoryCache) (queue : Str) (ms : List (Message P))
    → Ordered c
    → Ordered (insert_cache c queue ms).0
unfolding insert_cache
insert_cache-Ordered c queue ms o =
    if-Ordered (exists (λ m. not (is_yes (Str_discrete m.queue queue))) ms) _ _ o
      (primary-Ordered c _ o (insert_messages-InOrder (insertions c queue ms) c.queues o.queues))
