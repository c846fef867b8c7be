-- ===== src/MemoryCache/Removing.antt =====
-- What locking and removal do to the copies of an id in the pools of a queue.
use deckard.Common.{
  refl, ℕ, ◌+◌, ◌≤◌, ◌≡◌, none, some, List, [], ◌∷◌, if◌then◌else◌, ◌&&◌, Str, Str_discrete, is_yes,
  arith, length, exists,
}
use deckard.Common.Maps.{Map, insert, lookup-insert}
use deckard.Outcome.{ok}
use deckard.Dtime.{Time}
use deckard.Message.{Message}
use deckard.Entries.{Entry, Pool, values, create_entry, holds, unlink}
use deckard.Entries.Counts.{copies, copies-unlink}
use deckard.MemoryCache.{
  MemoryCache, LockType, lock_ack, lock_nack, index, insert_locked, locked_entry, lock_message,
  remove, remove_ids, remove_from_slice,
}
use deckard.MemoryCache.Copies.{
  entries, entries-insert, copies_at, total, OneCopy, copies_at-enter, copies_at-leave,
  removed-copies_at,
}

-- `LockMessage` moves the message's entry from the processing pool to the lock pool of the lock type: no copy
-- of any id is lost or made.
pub total-lock_message :
    {P : Type 0} (now : Time) (c : MemoryCache) (m : Message P) (t : LockType) (q id : Str)
    → OneCopy c
    → total (lock_message now c m t).0 q id ≡ total c q id
unfolding total lock_message create_entry insert_locked locked_entry
total-lock_message now c m lock_ack q id h = ground (
  arith,
  h m.queue m.id,
  removed-copies_at m.queue (create_entry m) c.processing_queues,
  copies_at-enter m.queue (locked_entry now m) c.lock_ack_queues q id,
  copies_at-leave m.queue (create_entry m) c.processing_queues q id,
)
total-lock_message now c m lock_nack q id h = ground (
  arith,
  h m.queue m.id,
  removed-copies_at m.queue (create_entry m) c.processing_queues,
  copies_at-enter m.queue (locked_entry now m) c.lock_nack_queues q id,
  copies_at-leave m.queue (create_entry m) c.processing_queues q id,
)

remove_ids-copies :
    (ids : List Str) (es : List Entry) (id : Str)
    → copies id es ≤ 1
    → copies id (remove_ids ids es).0
      ≡ (if exists (λ i. is_yes (Str_discrete i id)) ids then 0 else copies id es)
unfolding remove_ids exists
remove_ids-copies [] es id h = refl
remove_ids-copies (i ∷ ids) es id h =
    ground (arith, copies-unlink id i es, remove_ids-copies ids (unlink i es) id)

pub length-unlink :
    (id : Str) (es : List Entry)
    → length (unlink id es) + (if holds id es then 1 else 0) ≡ length es
unfolding unlink holds
length-unlink id [] = omega arith
length-unlink id (e ∷ es) = ground (arith, length-unlink id es)

remove_ids-length :
    (ids : List Str) (es : List Entry)
    → length (remove_ids ids es).0 + (remove_ids ids es).1 ≡ length es
unfolding remove_ids
remove_ids-length [] es = omega arith
remove_ids-length (i ∷ ids) es =
    omega (arith, remove_ids-length ids (unlink i es), length-unlink i es)

remove_from_slice-copies :
    (p : Pool) (ids : List Str) (id : Str)
    → copies id (values p) ≤ 1
    → copies id (values (remove_from_slice p ids).0)
      ≡ (if exists (λ i. is_yes (Str_discrete i id)) ids then 0 else copies id (values p))
unfolding remove_from_slice copies
remove_from_slice-copies none ids id h = ground arith
remove_from_slice-copies (some []) ids id h = ground arith
remove_from_slice-copies (some (e ∷ es)) ids id h = remove_ids-copies ids (e ∷ es) id h

remove_from_slice-length :
    (p : Pool) (ids : List Str)
    → length (values (remove_from_slice p ids).0) + (remove_from_slice p ids).1 ≡ length (values p)
unfolding remove_from_slice
remove_from_slice-length none ids = omega arith
remove_from_slice-length (some []) ids = omega arith
remove_from_slice-length (some (e ∷ es)) ids = remove_ids-length ids (e ∷ es)

remove-copies_at :
    (queue : Str) (ids : List Str) (m : Map Pool) (q id : Str)
    → copies_at m q id ≤ 1
    → copies_at (insert queue (remove_from_slice (index m queue) ids).0 m) q id ≡ (
        if is_yes (Str_discrete queue q) && exists (λ i. is_yes (Str_discrete i id)) ids
        then 0
        else copies_at m q id)
unfolding copies_at
remove-copies_at queue ids m q id h = elim (Str_discrete queue q) [
  | yes e ↦ ground (
    arith,
    lookup-insert queue q (remove_from_slice (index m queue) ids).0 m,
    remove_from_slice-copies (index m q) ids id,
  )
  | no e ↦ ground (arith, lookup-insert queue q (remove_from_slice (index m queue) ids).0 m)
]

-- After `Remove` no pool of the queue has one of the ids, and every other id of that or another queue has
-- as many copies as before.
pub total-remove :
    (c : MemoryCache) (queue : Str) (ids : List Str) (q id : Str)
    → OneCopy c
    → total (remove c queue ids).0 q id ≡ (
        if is_yes (Str_discrete queue q) && exists (λ i. is_yes (Str_discrete i id)) ids
        then 0
        else total c q id)
unfolding total remove
total-remove c queue ids q id h = ground (
  arith,
  h q id,
  remove-copies_at queue ids c.queues q id,
  remove-copies_at queue ids c.processing_queues q id,
  remove-copies_at queue ids c.lock_ack_queues q id,
  remove-copies_at queue ids c.lock_nack_queues q id,
)

remove-length :
    (queue : Str) (ids : List Str) (m : Map Pool)
    → length (entries (insert queue (remove_from_slice (index m queue) ids).0 m) queue)
        + (remove_from_slice (index m queue) ids).1
      ≡ length (entries m queue)
remove-length queue ids m =
    rw (entries-insert queue queue (remove_from_slice (index m queue) ids).0 m)
      (ground (arith, remove_from_slice-length (index m queue) ids))

-- The entries in the four pools of a queue.
pub size : MemoryCache → Str → ℕ
size c q =
    length (entries c.queues q)
    + length (entries c.processing_queues q)
    + length (entries c.lock_ack_queues q)
    + length (entries c.lock_nack_queues q)

-- `Remove` never fails, and its result is the number of entries that left the pools of the queue.
pub size-remove :
    (c : MemoryCache) (queue : Str) (ids : List Str)
    → (n : ℕ) × ((remove c queue ids).1 ≡ ok n)
      × (size (remove c queue ids).0 queue + n ≡ size c queue)
unfolding size remove
size-remove c queue ids = (
  _,
  refl,
  omega (
    arith,
    remove-length queue ids c.queues,
    remove-length queue ids c.processing_queues,
    remove-length queue ids c.lock_ack_queues,
    remove-length queue ids c.lock_nack_queues,
  ),
)
