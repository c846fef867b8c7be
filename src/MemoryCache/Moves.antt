-- ===== src/MemoryCache/Moves.antt =====
-- Which entries pulls and timeouts move, and between which pools.
use deckard.Common.{
  Bool, Option-cases, inl, inr, refl, ℕ, zero, suc, ◌+◌, ◌≤◌, ◌≡◌, none, some, List, [], ◌∷◌,
  if◌then◌else◌, Str, Str_discrete, is_yes, ◌&&◌, not, arith, exists, Option, map, keep, take, drop,
}
use deckard.Common.Int.{ℤ, pos, eqb_ℤ}
use deckard.Common.Maps.{insert, lookup-insert}
use deckard.Outcome.{ok}
use deckard.Dtime.{Time, unix}
use deckard.Score.{Score, min_score, out_of_range}
use deckard.Entries.{Entry}
use deckard.Entries.Counts.{copies}
use deckard.MemoryCache.{MemoryCache}
use deckard.MemoryCache.Copies.{
  entries, copies_at, total, OneCopy, copies_at-enter, copies_at-leave,
}
use deckard.MemoryCache.Pull.{pull_messages, pull_loop, default_timeout_ms, insert_all, min_int64}
use deckard.MemoryCache.Pulling.{
  pull_loop_lem, insert_all-copies, after_pull-copies, pull_messages-ids, keep-take_empty,
}
use deckard.MemoryCache.Release.{take_first, timed_out, timeout_messages}
use deckard.MemoryCache.Releasing.{take_first-copies}

-- The id of the first entry that passes the test, if one does.
unfoldable pub first_id : (Entry → Bool) → List Entry → List Str
first_id test [] = []
first_id test (e ∷ es) = if test e then e.id ∷ [] else first_id test es

-- How many copies of an id leave with the ids of a queue: one if it is among them.
abbrev pub moved : Str → List Str → Str → Str → ℕ
moved queue ids q id =
    if is_yes (Str_discrete queue q) && exists (λ i. is_yes (Str_discrete i id)) ids then 1 else 0

pub first_id-none :
    (test : Entry → Bool) (es : List Entry) → take_first test es ≡ none → first_id test es ≡ []
unfolding take_first first_id
first_id-none test [] h = refl
first_id-none test (e ∷ es) h = elim (Option-cases (take_first test es)) [
  | inl no_more ↦ ground (arith, no_more, first_id-none test es no_more)
  | inr (r, more) ↦ ground (arith, more)
]

pub first_id-some :
    (test : Entry → Bool) (es : List Entry) (x : Entry) (others : List Entry)
    → take_first test es ≡ some (x, others)
    → first_id test es ≡ x.id ∷ []
unfolding take_first first_id
first_id-some test [] x others h = cc
first_id-some test (e ∷ es) x others h = elim (Option-cases (take_first test es)) [
  | inl no_more ↦ ground (arith, no_more)
  | inr ((y, ys), more) ↦ ground (arith, more, first_id-some test es y ys more)
]

named-copies :
    (es : List Entry) (id : Str)
    → copies id es ≤ 1
    → (if exists (λ i. is_yes (Str_discrete i id)) (map (λ e. e.id) es) then 1 else 0)
      ≡ copies id es
unfolding copies exists
named-copies [] id h = refl
named-copies (e ∷ es) id h = ground (arith, named-copies es id)

keep-copies :
    (p : Entry → Bool) (n : ℕ) (es : List Entry) (id : Str)
    → copies id (keep p (take n es))
        + copies id (keep (λ e. not (p e)) (take n es))
        + copies id (drop n es)
      ≡ copies id es
unfolding copies keep take drop
keep-copies p zero es id = omega arith
keep-copies p (suc n) [] id = refl
keep-copies p (suc n) (e ∷ es) id = ground (arith, keep-copies p n es id)

-- The ids that the loop of a pull takes from the primary pool, and what is left of it.
loop-moved :
    (clock : ℕ → Time) (c : MemoryCache) (queue : Str) (n : ℕ) (lo hi : Option Score) (deadline : ℤ)
    (q id : Str)
    → OneCopy c
    → let r =
        pull_loop clock queue lo hi deadline 0 n (entries c.queues queue) c.processing_queues in
      copies_at (insert queue (insert_all r.filtered_out (some r.rest)) c.queues) q id
        + moved queue r.ids q id
      ≡ copies_at c.queues q id
unfolding total copies_at exists
loop-moved clock c queue n lo hi deadline q id h =
    let es = entries c.queues queue in
    let out : Entry → Bool = λ e. out_of_range lo hi e.score in
    let r = pull_loop clock queue lo hi deadline 0 n es c.processing_queues in
    elim (Str_discrete queue q) [
      | yes e ↦ ground (
        arith,
        e,
        h queue id,
        pull_loop_lem clock queue lo hi deadline 0 n es c.processing_queues,
        lookup-insert queue q (insert_all r.filtered_out (some r.rest)) c.queues,
        insert_all-copies r.filtered_out (some r.rest) id,
        keep-copies out n es id,
        named-copies (keep (λ e. not (out e)) (take n es)) id,
      )
      | no e ↦
          ground
            (arith, e, lookup-insert queue q (insert_all r.filtered_out (some r.rest)) c.queues)
    ]

-- A pull of n messages returns the ids of the entries in range among the first n of the primary pool of its queue, and
-- moves exactly these to the processing pool: their ids leave the one and enter the other, and every other id of every queue
-- has as many copies in each pool as before. No id may have two copies before the call.
pub pull_messages-moved :
    (clock : ℕ → Time) (c : MemoryCache) (queue : Str) (n : ℕ) (lo hi : Option Score) (deadline : ℤ)
    (q id : Str)
    → OneCopy c
    → let (after, result) = pull_messages clock c queue (pos n) lo hi deadline in
      let ids =
        map
          (λ e. e.id)
          (keep (λ e. not (out_of_range lo hi e.score)) (take n (entries c.queues queue))) in
      (result ≡ ok ids)
      × (copies_at after.queues q id + moved queue ids q id ≡ copies_at c.queues q id)
      × (copies_at after.processing_queues q id
          ≡ copies_at c.processing_queues q id + moved queue ids q id)
      × (after.lock_ack_queues ≡ c.lock_ack_queues)
      × (after.lock_nack_queues ≡ c.lock_nack_queues)
unfolding pull_messages min_int64 exists
pull_messages-moved clock c queue n lo hi deadline q id h =
    let es = entries c.queues queue in
    let out : Entry → Bool = λ e. out_of_range lo hi e.score in
    let d = if eqb_ℤ deadline (pos 0) then default_timeout_ms else deadline in
    let r = pull_loop clock queue lo hi d 0 n es c.processing_queues in
    let ids = (pull_loop_lem clock queue lo hi d 0 n es c.processing_queues).0 in
    let left = loop-moved clock c queue n lo hi d q id h in
    let all = after_pull-copies clock c queue n lo hi d q id h in
    let none_taken = keep-take_empty (λ e. not (out e)) n es in
    (
      pull_messages-ids clock c queue n lo hi deadline,
      ground (arith, none_taken, ids, left),
      ground (arith, none_taken, ids, left, all),
      ground arith,
      ground arith,
    )

-- `TimeoutMessages` returns the id of the first entry of the processing pool of its queue that has timed out, if one has, and moves
-- exactly this one to the primary pool: every other id of every queue has as many copies in each pool as before. No id may have two
-- copies before the call.
pub timeout_messages-moved :
    (now : Time) (c : MemoryCache) (queue q id : Str)
    → OneCopy c
    → let (after, result) = timeout_messages now c queue in
      let ids = first_id (timed_out (unix now)) (entries c.processing_queues queue) in
      (result ≡ ok ids)
      × (copies_at after.processing_queues q id + moved queue ids q id
          ≡ copies_at c.processing_queues q id)
      × (copies_at after.queues q id ≡ copies_at c.queues q id + moved queue ids q id)
      × (after.lock_ack_queues ≡ c.lock_ack_queues)
      × (after.lock_nack_queues ≡ c.lock_nack_queues)
unfolding timeout_messages exists total
timeout_messages-moved now c queue q id h =
    elim (Option-cases (take_first (timed_out (unix now)) (entries c.processing_queues queue))) [
      | inl e ↦
          rw
            (
              e,
              timeout_messages,
              first_id-none (timed_out (unix now)) (entries c.processing_queues queue) e,
            )
            (ground arith)
      | inr ((x, others), e) ↦
          let value = record x { score = min_score } in
          let had : 1 ≤ copies_at c.processing_queues queue x.id =
            unfold copies_at in
            ground (
              arith,
              take_first-copies (timed_out (unix now)) (entries c.processing_queues queue) x others
                  x.id e,
            ) in
          rw
            (
              e,
              timeout_messages,
              first_id-some (timed_out (unix now)) (entries c.processing_queues queue) x others e,
            )
            (ground (
              arith,
              had,
              h queue x.id,
              copies_at-enter queue value c.queues q id,
              copies_at-leave queue value c.processing_queues q id,
            ))
    ]
