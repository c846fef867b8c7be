-- ===== src/MemoryCache/Pulling.antt =====
-- What a pull does: which ids it returns, and where the entries go.
use deckard.Common.{
  Bool, true, false, not, Bool-cases, inl, inr, refl, ap, ℕ, zero, suc, ◌+◌, ◌≤◌, ◌≡◌, ◌∙◌, sym,
  Option, none, some, List, [], ◌∷◌, ite, if◌then◌else◌, Str, Str_discrete, arith, length, keep,
  map, take, drop, All, subst,
}
use deckard.Common.Int.{ℤ, pos, eqb_ℤ}
use deckard.Common.Maps.{Map, insert, lookup-insert}
use deckard.Outcome.{ok}
use deckard.Dtime.{Time}
use deckard.Score.{Score, out_of_range}
use deckard.Entries.{Entry, Pool, values, insert_entry}
use deckard.Entries.Counts.{copies, copies-insert_entry}
use deckard.Entries.Order.{IsSorted, AtLeast, insert_entry-IsSorted}
use deckard.MemoryCache.{MemoryCache, index}
use deckard.MemoryCache.Copies.{entries, copies_at, total, OneCopy, copies_at-enter}
use deckard.MemoryCache.Pull.{
  pull_messages, pull_loop, processing_entry, insert_all, min_int64, rounds, default_timeout_ms,
}

pub insert_all-copies :
    (xs : List Entry) (p : Pool) (id : Str)
    → copies id xs + copies id (values p) ≤ 1
    → copies id (values (insert_all xs p)) ≡ copies id xs + copies id (values p)
unfolding insert_all copies
insert_all-copies [] p id h = omega arith
insert_all-copies (x ∷ xs) p id h =
    ground (arith, copies-insert_entry id x p, insert_all-copies xs (insert_entry x p).0 id)

pub insert_all-IsSorted :
    (xs : List Entry) (p : Pool) → IsSorted (values p) → IsSorted (values (insert_all xs p))
unfolding insert_all
insert_all-IsSorted [] p h = h
insert_all-IsSorted (x ∷ xs) p h =
    insert_all-IsSorted xs (insert_entry x p).0 (insert_entry-IsSorted x p h)

module _ (clock : ℕ → Time) (queue : Str) (lo hi : Option Score) (deadline : ℤ) where
  -- The ids are those of the entries in range among the first n, in order; the others of these
  -- are filtered out, and the rest of the list stays.
  pub pull_loop_lem :
      (i n : ℕ) (es : List Entry) (pr : Map Pool)
      → ((pull_loop clock queue lo hi deadline i n es pr).ids
          ≡ map (λ e. e.id) (keep (λ e. not (out_of_range lo hi e.score)) (take n es)))
        × ((pull_loop clock queue lo hi deadline i n es pr).filtered_out
            ≡ keep (λ e. out_of_range lo hi e.score) (take n es))
        × ((pull_loop clock queue lo hi deadline i n es pr).rest ≡ drop n es)
  unfolding pull_loop take drop keep
  pull_loop_lem i zero es pr = (refl, refl, refl)
  pull_loop_lem i (suc n) [] pr = (refl, refl, refl)
  pull_loop_lem i (suc n) (e ∷ es) pr = ground (
    arith,
    pull_loop_lem (suc i) n es pr,
    pull_loop_lem (suc i) n es
        (insert queue (insert_entry (processing_entry (clock i) deadline e) (index pr queue)).0 pr),
  )

  -- Over a list and processing pools in which each id stands once at most.
  pull_loop-copies :
      (i n : ℕ) (es : List Entry) (pr : Map Pool) (q id : Str)
      → ((k : Str) → copies k es + copies_at pr queue k ≤ 1)
      → let r = pull_loop clock queue lo hi deadline i n es pr in
        ite (Str_discrete queue q) (copies id r.rest + copies id r.filtered_out) 0
          + copies_at r.processing q id
        ≡ ite (Str_discrete queue q) (copies id es) 0 + copies_at pr q id
  unfolding pull_loop copies
  pull_loop-copies i zero es pr q id h = ground arith
  pull_loop-copies i (suc n) [] pr q id h = ground arith
  pull_loop-copies i (suc n) (e ∷ es) pr q id h = elim (Bool-cases (out_of_range lo hi e.score)) [
    | inl out ↦
        rw out
          (ground (arith, pull_loop-copies (suc i) n es pr q id (λ k. ground (arith, h k)), h id))
    | inr in_range ↦ rw in_range (
        let x = processing_entry (clock i) deadline e in
        let pr' = insert queue (insert_entry x (index pr queue)).0 pr in
        let keeps : (k : Str) → copies k es + copies_at pr' queue k ≤ 1 = λ k.
          unfold processing_entry copies in
          ground (arith, h k, copies_at-enter queue x pr queue k) in
        unfold processing_entry copies in
        ground (
          arith,
          pull_loop-copies (suc i) n es pr' q id keeps,
          h id,
          copies_at-enter queue x pr q id,
        ))
  ]

pub keep-take_empty :
    (p : Entry → Bool) (n : ℕ) (es : List Entry) → length es ≡ 0 → keep p (take n es) ≡ []
unfolding keep take
keep-take_empty p zero es h = refl
keep-take_empty p (suc n) [] h = refl
keep-take_empty p (suc n) (e ∷ es) h = absurd (omega arith)

pub pull_messages-ids :
    (clock : ℕ → Time) (c : MemoryCache) (queue : Str) (n : ℕ) (lo hi : Option Score) (deadline : ℤ)
    → (pull_messages clock c queue (pos n) lo hi deadline).1
      ≡ ok (
          map
            (λ e. e.id)
            (keep (λ e. not (out_of_range lo hi e.score)) (take n (entries c.queues queue))))
unfolding pull_messages min_int64
pull_messages-ids clock c queue n lo hi deadline =
    let es = entries c.queues queue in
    let d = if eqb_ℤ deadline (pos 0) then default_timeout_ms else deadline in
    ground (
      arith,
      keep-take_empty (λ e. not (out_of_range lo hi e.score)) n es,
      pull_loop_lem clock queue lo hi d 0 n es c.processing_queues,
    )

pub after_pull-copies :
    (clock : ℕ → Time) (c : MemoryCache) (queue : Str) (n : ℕ) (lo hi : Option Score) (deadline : ℤ)
    (q id : Str)
    → OneCopy c
    → let r =
        pull_loop clock queue lo hi deadline 0 n (entries c.queues queue) c.processing_queues in
      copies_at (insert queue (insert_all r.filtered_out (some r.rest)) c.queues) q id
        + copies_at r.processing q id
      ≡ copies_at c.queues q id + copies_at c.processing_queues q id
unfolding total
after_pull-copies clock c queue n lo hi deadline q id h =
    let r = pull_loop clock queue lo hi deadline 0 n (entries c.queues queue) c.processing_queues in
    let one : (k : Str)
        → copies k (entries c.queues queue) + copies_at c.processing_queues queue k ≤ 1 =
      λ k. unfold copies_at in omega (arith, h queue k) in
    let loop = λ (q' : Str).
      pull_loop-copies clock queue lo hi deadline 0 n (entries c.queues queue) c.processing_queues
        q' id one in
    unfold copies_at in
    ground (
      arith,
      one id,
      loop q,
      loop queue,
      lookup-insert queue q (insert_all r.filtered_out (some r.rest)) c.queues,
      insert_all-copies r.filtered_out (some r.rest) id,
    )

-- A pull moves entries from the primary pool of its queue to the processing pool, and loses and makes
-- no copy of any id.
pub total-pull_messages :
    (clock : ℕ → Time) (c : MemoryCache) (queue : Str) (n : ℤ) (lo hi : Option Score) (deadline : ℤ)
    (q id : Str)
    → OneCopy c
    → total (pull_messages clock c queue n lo hi deadline).0 q id ≡ total c q id
unfolding pull_messages total
total-pull_messages clock c queue n lo hi deadline q id h = ground (
  arith,
  after_pull-copies clock c queue (rounds n) lo hi
      (if eqb_ℤ deadline (pos 0) then default_timeout_ms else deadline) q id h,
)

AtLeast-drop : (b : Score) (n : ℕ) (es : List Entry) → AtLeast b es → AtLeast b (drop n es)
unfolding drop
AtLeast-drop b zero es h = h
AtLeast-drop b (suc n) [] h = h
AtLeast-drop b (suc n) (e ∷ es) h = AtLeast-drop b n es h.1

take-AtLeast-drop :
    (n : ℕ) (es : List Entry) → IsSorted es → All (λ e. AtLeast e.score (drop n es)) (take n es)
unfolding take drop
take-AtLeast-drop zero es h = tt
take-AtLeast-drop (suc n) [] h = tt
take-AtLeast-drop (suc n) (e ∷ es) h = (AtLeast-drop e.score n es h.0, take-AtLeast-drop n es h.1)

keep_all : (p : Entry → Bool) (es : List Entry) → ((e : Entry) → p e ≡ true) → keep p es ≡ es
unfolding keep
keep_all p [] h = refl
keep_all p (e ∷ es) h = ground (arith, h e, keep_all p es h)

keep_none : (p : Entry → Bool) (es : List Entry) → ((e : Entry) → p e ≡ false) → keep p es ≡ []
unfolding keep
keep_none p [] h = refl
keep_none p (e ∷ es) h = ground (arith, h e, keep_none p es h)

drop_empty : (n : ℕ) (es : List Entry) → length es ≡ 0 → drop n es ≡ es
unfolding drop
drop_empty zero es h = refl
drop_empty (suc n) [] h = refl
drop_empty (suc n) (e ∷ es) h = absurd (omega arith)

entries-pull_messages :
    (clock : ℕ → Time) (c : MemoryCache) (queue : Str) (n : ℕ) (deadline : ℤ)
    → entries (pull_messages clock c queue (pos n) none none deadline).0.queues queue
      ≡ drop n (entries c.queues queue)
unfolding pull_messages min_int64 out_of_range insert_all
entries-pull_messages clock c queue n deadline =
    let es = entries c.queues queue in
    let d = if eqb_ℤ deadline (pos 0) then default_timeout_ms else deadline in
    let r = pull_loop clock queue none none d 0 n es c.processing_queues in
    ground (
      arith,
      drop_empty n es,
      pull_loop_lem clock queue none none d 0 n es c.processing_queues,
      keep_none (λ (e : Entry). out_of_range none none e.score) (take n es) (λ e. refl),
      lookup-insert queue queue (insert_all r.filtered_out (some r.rest)) c.queues,
    )

-- Over a primary pool in order, a pull of n messages with no score filter returns the ids of the first n entries and
-- leaves the others, in order, and no entry that it leaves has a smaller score than one that it returns.
pub pull_messages_priority :
    (clock : ℕ → Time) (c : MemoryCache) (queue : Str) (n : ℕ) (deadline : ℤ)
    → IsSorted (entries c.queues queue)
    → let (after, result) = pull_messages clock c queue (pos n) none none deadline in
      (result ≡ ok (map (λ e. e.id) (take n (entries c.queues queue))))
      × (entries after.queues queue ≡ drop n (entries c.queues queue))
      × All (λ e. AtLeast e.score (entries after.queues queue)) (take n (entries c.queues queue))
unfolding out_of_range
pull_messages_priority clock c queue n deadline h = (
  pull_messages-ids clock c queue n none none deadline
      ∙ ap (λ es. ok (map (λ e. e.id) es))
          (keep_all (λ (e : Entry). not (out_of_range none none e.score))
            (take n (entries c.queues queue)) (λ e. refl)),
  entries-pull_messages clock c queue n deadline,
  subst (λ es. All (λ e. AtLeast e.score es) (take n (entries c.queues queue)))
      (sym (entries-pull_messages clock c queue n deadline))
      (take-AtLeast-drop n (entries c.queues queue) h),
)
