-- ===== src/MemoryCache/Steps.antt =====
-- The cache as a state machine: every call of internal/queue/cache/memory_cache.go that changes it, in any
-- order, with any clock readings and arguments, over messages with payloads of type P.
use deckard.Common.{
  Bool, true, false, not, Bool-cases, Option-cases, inl, inr, ℕ, ◌≡◌, sym, Option, List, [], ◌∷◌,
  if◌then◌else◌, Str, Str_discrete, is_yes, arith, exists, subst,
}
use deckard.Common.Int.{ℤ}
use deckard.Common.Maps.{Map, lookup, insert}
use deckard.Outcome.{Result}
use deckard.Dtime.{Time, time_to_ms}
use deckard.Score.{Score, min_score, get_score_by_default_algorithm}
use deckard.Message.{Message}
use deckard.Entries.{Pool, insert_entry}
use deckard.Entries.Counts.{copies}
use deckard.MemoryCache.{
  MemoryCache, LockType, lock_ack, lock_nack, index, make_available, lock_present, insert_locked,
  locked_entry, lock_message, remove, lock_map, set_lock_map, set, flush, new_memory_cache,
}
use deckard.MemoryCache.Copies.{copies_at, total, OneCopy, total-make_available}
use deckard.MemoryCache.Pull.{pull_messages}
use deckard.MemoryCache.Release.{
  unlock_each, unlock_first, rescored, unlock_messages, timeout_messages,
}
use deckard.MemoryCache.Insert.{insert_cache}
use deckard.MemoryCache.Removing.{total-lock_message, total-remove}
use deckard.MemoryCache.Pulling.{total-pull_messages}
use deckard.MemoryCache.Releasing.{
  Keyed, insert-Keyed, unlock_each-keys, total-unlock_messages, total-timeout_messages,
}
use deckard.MemoryCache.Inserting.{total-insert_cache}
use deckard.MemoryCache.Sorting.{
  Ordered, make_available-Ordered, lock_message-Ordered, remove-Ordered,
}
use deckard.MemoryCache.SortingBulk.{
  pull_messages-Ordered, timeout_messages-Ordered, unlock_messages-Ordered, insert_cache-Ordered,
}

-- The locked lists have distinct keys.
pub record LocksKeyed (c : MemoryCache) : Type 0 where
  pub ack : Keyed c.lock_ack_queues
  pub nack : Keyed c.lock_nack_queues

pub record Inv (c : MemoryCache) : Type 0 where
  pub one_copy : OneCopy c
  pub ordered : Ordered c
  pub locks : LocksKeyed c

module _ (P : Type 0) where
  pub data Step : MemoryCache → MemoryCache → Type 0 where
    makes_available : (c : MemoryCache) (m : Message P) → Step c (make_available c m).0
    locks_message :
        (c : MemoryCache) (now : Time) (m : Message P) (t : LockType)
        → Step c (lock_message now c m t).0
    unlocks :
        (c : MemoryCache) (scored_at now : Time) (queue : Str) (t : LockType)
        → Step c (unlock_messages scored_at now c queue t).0
    pulls :
        (c : MemoryCache) (clock : ℕ → Time) (queue : Str) (n : ℤ) (lo hi : Option Score)
        (deadline : ℤ)
        → Step c (pull_messages clock c queue n lo hi deadline).0
    times_out :
        (c : MemoryCache) (now : Time) (queue : Str) → Step c (timeout_messages now c queue).0
    inserts :
        (c : MemoryCache) (queue : Str) (ms : List (Message P)) → Step c (insert_cache c queue ms).0
    removes : (c : MemoryCache) (queue : Str) (ids : List Str) → Step c (remove c queue ids).0
    sets : (c : MemoryCache) (key value : Str) → Step c (set c key value).0
    flushes : (c : MemoryCache) → Step c (flush c)

  pub data Reach : MemoryCache → Type 0 where
    fresh : Reach new_memory_cache
    next : {c d : MemoryCache} → Reach c → Step c d → Reach d

one_of_total :
    (c d : MemoryCache) → OneCopy c → ((q id : Str) → total d q id ≡ total c q id) → OneCopy d
one_of_total c d h e q id = omega (arith, h q id, e q id)

insert_cache-OneCopy :
    {P : Type 0} (c : MemoryCache) (queue : Str) (ms : List (Message P))
    → OneCopy c
    → OneCopy (insert_cache c queue ms).0
unfolding insert_cache
insert_cache-OneCopy c queue ms h q id =
    elim (Bool-cases (exists (λ m. not (is_yes (Str_discrete m.queue queue))) ms)) [
      | inl bad ↦ rw (bad, insert_cache) (h q id)
      | inr good ↦ ground (arith, total-insert_cache c queue ms q id h good, h q id)
    ]

remove-OneCopy :
    (c : MemoryCache) (queue : Str) (ids : List Str) → OneCopy c → OneCopy (remove c queue ids).0
remove-OneCopy c queue ids h q id = ground (arith, total-remove c queue ids q id h, h q id)

empty-OneCopy : OneCopy new_memory_cache
unfolding new_memory_cache total copies_at copies lookup
empty-OneCopy q id = omega arith

empty-Ordered : Ordered new_memory_cache
unfolding new_memory_cache lookup
empty-Ordered = record {
  queues = λ q. tt;
  processing = λ q. tt;
  locked_ack = λ q. tt;
  locked_nack = λ q. tt;
}

empty-LocksKeyed : LocksKeyed new_memory_cache
unfolding new_memory_cache
empty-LocksKeyed = record { ack = tt; nack = tt }

unlock_each-Keyed :
    (now_ms : ℤ) (s : Score) (m qs : Map Pool) → Keyed m → Keyed (unlock_each now_ms s m qs).locked
unfolding unlock_each
unlock_each-Keyed now_ms s [] qs u = tt
unlock_each-Keyed now_ms s ((j, p) ∷ m) qs u = elim (Option-cases (unlock_first now_ms p)) [
  | inl e ↦
      rw (e, unlock_each)
        (unlock_each-keys now_ms s m qs j u.0, unlock_each-Keyed now_ms s m qs u.1)
  | inr ((x, others), e) ↦
      let qs' = insert j (insert_entry (rescored s x) (index qs j)).0 qs in
      rw (e, unlock_each)
        (unlock_each-keys now_ms s m qs' j u.0, unlock_each-Keyed now_ms s m qs' u.1)
]

pub Keyed-lock_map : (t : LockType) (c : MemoryCache) → LocksKeyed c → Keyed (lock_map t c)
unfolding lock_map
Keyed-lock_map lock_ack c k = k.ack
Keyed-lock_map lock_nack c k = k.nack

if-LocksKeyed :
    {B : Type 0} (b : Bool) (x y : MemoryCache × Result B)
    → LocksKeyed x.0
    → LocksKeyed y.0
    → LocksKeyed (if b then x else y).0
if-LocksKeyed true x y h k = h
if-LocksKeyed false x y h k = k

-- The locks are where they were.
same-locks :
    {c d : MemoryCache}
    → d.lock_ack_queues ≡ c.lock_ack_queues
    → d.lock_nack_queues ≡ c.lock_nack_queues
    → LocksKeyed c
    → LocksKeyed d
same-locks a n k = record { ack = subst Keyed (sym a) k.ack; nack = subst Keyed (sym n) k.nack }

module _ {P : Type 0} where
  lock_message-LocksKeyed :
      (now : Time) (c : MemoryCache) (m : Message P) (t : LockType)
      → LocksKeyed c
      → LocksKeyed (lock_message now c m t).0
  unfolding lock_message lock_present insert_locked
  lock_message-LocksKeyed now c m lock_ack k = record {
    ack = ground (
      arith,
      k.ack,
      insert-Keyed m.queue (insert_entry (locked_entry now m) (index c.lock_ack_queues m.queue)).0
          c.lock_ack_queues k.ack,
    );
    nack = ground arith;
  }
  lock_message-LocksKeyed now c m lock_nack k = record {
    ack = ground arith;
    nack = ground (
      arith,
      insert-Keyed m.queue (insert_entry (locked_entry now m) (index c.lock_nack_queues m.queue)).0
          c.lock_nack_queues k.nack,
    );
  }

  Step-LocksKeyed : {c d : MemoryCache} → Step P c d → LocksKeyed c → LocksKeyed d
  unfolding make_available pull_messages timeout_messages insert_cache remove set flush
      unlock_messages set_lock_map lock_map
  Step-LocksKeyed (makes_available c m) k = same-locks (ground arith) (ground arith) k
  Step-LocksKeyed (locks_message c now m t) k = lock_message-LocksKeyed now c m t k
  Step-LocksKeyed (unlocks c s now queue lock_ack) k = record {
    ack =
        unlock_each-Keyed (time_to_ms now) (get_score_by_default_algorithm s) c.lock_ack_queues
          c.queues k.ack;
    nack = k.nack;
  }
  Step-LocksKeyed (unlocks c s now queue lock_nack) k = record {
    ack = k.ack;
    nack = unlock_each-Keyed (time_to_ms now) min_score c.lock_nack_queues c.queues k.nack;
  }
  Step-LocksKeyed (pulls c clock queue n lo hi deadline) k =
      same-locks (ground arith) (ground arith) k
  Step-LocksKeyed (times_out c now queue) k = same-locks (ground arith) (ground arith) k
  Step-LocksKeyed (inserts c queue ms) k = same-locks (ground arith) (ground arith) k
  Step-LocksKeyed (removes c queue ids) k = record {
    ack = insert-Keyed queue _ c.lock_ack_queues k.ack;
    nack = insert-Keyed queue _ c.lock_nack_queues k.nack;
  }
  Step-LocksKeyed (sets c key value) k = record { ack = k.ack; nack = k.nack }
  Step-LocksKeyed (flushes c) k = record { ack = tt; nack = tt }

  Step-OneCopy : {c d : MemoryCache} → Step P c d → LocksKeyed c → OneCopy c → OneCopy d
  unfolding set flush total
  Step-OneCopy (makes_available c m) k h =
      one_of_total c (make_available c m).0 h (λ q id. total-make_available c m q id h)
  Step-OneCopy (locks_message c now m t) k h =
      one_of_total c (lock_message now c m t).0 h (λ q id. total-lock_message now c m t q id h)
  Step-OneCopy (unlocks c s now queue t) k h =
      one_of_total c (unlock_messages s now c queue t).0 h
        (λ q id. total-unlock_messages s now c queue t q id (Keyed-lock_map t c k) h)
  Step-OneCopy (pulls c clock queue n lo hi deadline) k h =
      one_of_total c (pull_messages clock c queue n lo hi deadline).0 h
        (λ q id. total-pull_messages clock c queue n lo hi deadline q id h)
  Step-OneCopy (times_out c now queue) k h =
      one_of_total c (timeout_messages now c queue).0 h
        (λ q id. total-timeout_messages now c queue q id h)
  Step-OneCopy (inserts c queue ms) k h = insert_cache-OneCopy c queue ms h
  Step-OneCopy (removes c queue ids) k h = remove-OneCopy c queue ids h
  Step-OneCopy (sets c key value) k h = h
  Step-OneCopy (flushes c) k h = unfold new_memory_cache in empty-OneCopy

  Step-Ordered : {c d : MemoryCache} → Step P c d → LocksKeyed c → Ordered c → Ordered d
  unfolding set flush
  Step-Ordered (makes_available c m) k h = make_available-Ordered c m h
  Step-Ordered (locks_message c now m t) k h = lock_message-Ordered c m h now t
  Step-Ordered (unlocks c s now queue t) k h =
      unlock_messages-Ordered s now c queue t (Keyed-lock_map t c k) h
  Step-Ordered (pulls c clock queue n lo hi deadline) k h =
      pull_messages-Ordered clock c queue n lo hi deadline h
  Step-Ordered (times_out c now queue) k h = timeout_messages-Ordered now c queue h
  Step-Ordered (inserts c queue ms) k h = insert_cache-Ordered c queue ms h
  Step-Ordered (removes c queue ids) k h = remove-Ordered c queue ids h
  Step-Ordered (sets c key value) k h = record {
    queues = h.queues;
    processing = h.processing;
    locked_ack = h.locked_ack;
    locked_nack = h.locked_nack;
  }
  Step-Ordered (flushes c) k h = unfold new_memory_cache in empty-Ordered

  -- Whatever calls are made of a new cache, in whatever order, no id ever stands twice in the four pools of a queue,
  -- and every list of every pool is in the order of its scores.
  pub Reach-Inv : {c : MemoryCache} → Reach P c → Inv c
  Reach-Inv fresh = record {
    one_copy = empty-OneCopy;
    ordered = empty-Ordered;
    locks = empty-LocksKeyed;
  }
  Reach-Inv (next r s) =
      let v = Reach-Inv r in
      record {
        one_copy = Step-OneCopy s v.locks v.one_copy;
        ordered = Step-Ordered s v.locks v.ordered;
        locks = Step-LocksKeyed s v.locks;
      }
