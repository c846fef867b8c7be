-- ===== src/MemoryCache/Draining.antt =====
-- Calls of `TimeoutMessages` of internal/queue/cache/memory_cache.go, one after the other.
use deckard.Common.{
  ℕ, zero, suc, ◌≤◌, ◌≡◌, ◌⊎◌, refl, sym, ap, subst, ◌∙◌, Bool, true, false, none, some, List, [],
  ◌∷◌, Str, arith, length, exists, Bool-cases, Option-cases, inl, inr,
}
use deckard.Common.Maps.{lookup-insert_self}
use deckard.Dtime.{Time, unix}
use deckard.Score.{min_score}
use deckard.Entries.{Entry, Pool, values, unlink, holds, remove_entry}
use deckard.MemoryCache.Removing.{length-unlink}
use deckard.MemoryCache.{MemoryCache, index}
use deckard.MemoryCache.Copies.{entries, total, OneCopy}
use deckard.MemoryCache.Release.{take_first, timed_out, timeout_messages}
use deckard.MemoryCache.Releasing.{total-timeout_messages}

-- The state after n calls at one reading of the clock.
unfoldable pub timeouts : ℕ → Time → MemoryCache → Str → MemoryCache
timeouts zero now c queue = c
timeouts (suc n) now c queue = timeouts n now (timeout_messages now c queue).0 queue

take_first-holds :
    (test : Entry → Bool) (es : List Entry) (r : Entry × List Entry)
    → take_first test es ≡ some r
    → holds r.0.id es ≡ true
unfolding take_first holds
take_first-holds test [] r h = cc
take_first-holds test (e ∷ es) r h = elim (Bool-cases (test e)) [
  | inl t ↦ ground (arith, h, t)
  | inr f ↦ elim (Option-cases (take_first test es)) [
    | inl n ↦ ground (arith, h, f, n)
    | inr (x, s) ↦ ground (arith, h, f, s, take_first-holds test es x s)
  ]
]

take_first-exists :
    (test : Entry → Bool) (es : List Entry) → take_first test es ≡ none → exists test es ≡ false
unfolding take_first exists
take_first-exists test [] h = refl
take_first-exists test (e ∷ es) h = elim (Option-cases (take_first test es)) [
  | inl n ↦ ground (arith, h, n, take_first-exists test es n)
  | inr (x, s) ↦ ground (arith, h, s)
]

values-remove_entry : (x : Entry) (p : Pool) → values (remove_entry x p).0 ≡ unlink x.id (values p)
unfolding remove_entry unlink
values-remove_entry x none = refl
values-remove_entry x (some es) = refl

-- A call moves an entry out of the processing pool, or none of its entries has timed out.
timeout_messages-moves :
    (now : Time) (c : MemoryCache) (queue : Str)
    → (((timeout_messages now c queue).0 ≡ c)
        × (exists (timed_out (unix now)) (entries c.processing_queues queue) ≡ false))
      ⊎ (suc (length (entries (timeout_messages now c queue).0.processing_queues queue))
          ≡ length (entries c.processing_queues queue))
unfolding timeout_messages
timeout_messages-moves now c queue =
    elim (Option-cases (take_first (timed_out (unix now)) (entries c.processing_queues queue))) [
      | inl n ↦ inl (rw (n, timeout_messages) refl, take_first-exists _ _ n)
      | inr (r, e) ↦ inr (
          rw (e, timeout_messages)
            (ground (
              arith,
              lookup-insert_self queue
                  (remove_entry (record r.0 { score = min_score })
                    (index c.processing_queues queue)).0
                  c.processing_queues,
              values-remove_entry (record r.0 { score = min_score })
                  (index c.processing_queues queue),
              length-unlink r.0.id (entries c.processing_queues queue),
              take_first-holds (timed_out (unix now)) (entries c.processing_queues queue) r e,
            )))
    ]

timeouts-still :
    (n : ℕ) (now : Time) (c : MemoryCache) (queue : Str)
    → (timeout_messages now c queue).0 ≡ c
    → timeouts n now c queue ≡ c
unfolding timeouts
timeouts-still zero now c queue e = refl
timeouts-still (suc n) now c queue e =
    ap (λ s. timeouts n now s queue) e ∙ timeouts-still n now c queue e

timeouts-none :
    (n : ℕ) (now : Time) (c : MemoryCache) (queue : Str)
    → length (entries c.processing_queues queue) ≤ n
    → exists (timed_out (unix now)) (entries (timeouts n now c queue).processing_queues queue)
      ≡ false
unfolding timeouts
timeouts-none zero now c queue h = elim (timeout_messages-moves now c queue) [
  | inl (e, none_left) ↦ none_left
  | inr moved ↦ absurd (omega (arith, h, moved))
]
timeouts-none (suc n) now c queue h = elim (timeout_messages-moves now c queue) [
  | inl (e, none_left) ↦
      subst (λ s. exists (timed_out (unix now)) (entries s.processing_queues queue) ≡ false)
        (sym (timeouts-still (suc n) now c queue e)) none_left
  | inr moved ↦ timeouts-none n now (timeout_messages now c queue).0 queue (omega (arith, h, moved))
]

total-timeouts :
    (n : ℕ) (now : Time) (c : MemoryCache) (queue : Str)
    → OneCopy c
    → (q id : Str) → total (timeouts n now c queue) q id ≡ total c q id
unfolding timeouts
total-timeouts zero now c queue one q id = refl
total-timeouts (suc n) now c queue one q id =
    let same = λ (k : Str) (i : Str). total-timeout_messages now c queue k i one in
    total-timeouts n now (timeout_messages now c queue).0 queue
      (λ k i. omega (arith, one k i, same k i)) q id
    ∙ same q id

-- While no id stands in a queue twice, as many calls of `TimeoutMessages` at one time as the processing pool has messages, or more, leave no message
-- in it that has timed out by then, and lose or make no copy of any id: every message that is timed out gets its turn.
pub timeouts-drain :
    (n : ℕ) (now : Time) (c : MemoryCache) (queue : Str)
    → OneCopy c
    → length (entries c.processing_queues queue) ≤ n
    → (exists (timed_out (unix now)) (entries (timeouts n now c queue).processing_queues queue)
        ≡ false)
      × ((q id : Str) → total (timeouts n now c queue) q id ≡ total c q id)
timeouts-drain n now c queue one h =
    (timeouts-none n now c queue h, total-timeouts n now c queue one)
