-- ===== src/MemoryCache/Copies.antt =====
-- How often an id stands in the pools of a queue, and what the operations on one message do to it.
use deckard.Common.{
  ◌-◌, ◌==◌, true, false, ℕ, suc, ◌+◌, ◌≤◌, ◌≡◌, List, ite, if◌then◌else◌, Str, Str_discrete, arith,
}
use deckard.Common.Maps.{Map, insert, lookup-insert}
use deckard.Message.{Message}
use deckard.Entries.{Entry, Pool, values, create_entry, insert_entry, remove_entry}
use deckard.Entries.Counts.{copies, copies-insert_entry, copies-remove_entry}
use deckard.MemoryCache.{MemoryCache, index, make_available}

-- The entries of a queue in a map of pools.
abbrev pub entries : Map Pool → Str → List Entry
entries m q = values (index m q)

pub entries-insert :
    (k q : Str) (p : Pool) (m : Map Pool)
    → entries (insert k p m) q ≡ ite (Str_discrete k q) (values p) (entries m q)
entries-insert k q p m = ground (arith, lookup-insert k q p m)

unfoldable pub copies_at : Map Pool → Str → Str → ℕ
copies_at m q id = copies id (entries m q)

-- The copies of an id in the four pools of a queue.
unfoldable pub total : MemoryCache → Str → Str → ℕ
total c q id =
    copies_at c.queues q id
    + copies_at c.processing_queues q id
    + copies_at c.lock_ack_queues q id
    + copies_at c.lock_nack_queues q id

-- No id stands in the pools of a queue more than once.
abbrev pub OneCopy : MemoryCache → Type 0
OneCopy c = (q id : Str) → total c q id ≤ 1

pub copies_at-insert :
    (k q : Str) (p : Pool) (m : Map Pool) (id : Str)
    → copies_at (insert k p m) q id
      ≡ ite (Str_discrete k q) (copies id (values p)) (copies_at m q id)
unfolding copies_at
copies_at-insert k q p m id = ground (arith, lookup-insert k q p m)

-- An entry inserted into the list of a queue.
pub copies_at-enter :
    (k : Str) (x : Entry) (m : Map Pool) (q id : Str)
    → copies_at (insert k (insert_entry x (index m k)).0 m) q id
      ≡ ite
          (Str_discrete k q)
          (ite (Str_discrete x.id id) (suc (copies_at m q id - 1)) (copies_at m q id))
          (copies_at m q id)
unfolding copies_at
copies_at-enter k x m q id = elim (Str_discrete k q) [
  | yes e ↦ ground (
    arith,
    lookup-insert k q (insert_entry x (index m k)).0 m,
    copies-insert_entry id x (index m k),
  )
  | no e ↦ ground (arith, lookup-insert k q (insert_entry x (index m k)).0 m)
]

-- An entry removed from it.
pub copies_at-leave :
    (k : Str) (x : Entry) (m : Map Pool) (q id : Str)
    → copies_at (insert k (remove_entry x (index m k)).0 m) q id
      ≡ ite
          (Str_discrete k q)
          (ite (Str_discrete x.id id) (copies_at m q id - 1) (copies_at m q id))
          (copies_at m q id)
unfolding copies_at
copies_at-leave k x m q id = elim (Str_discrete k q) [
  | yes e ↦ ground (
    arith,
    lookup-insert k q (remove_entry x (index m k)).0 m,
    copies-remove_entry id x (index m k),
  )
  | no e ↦ ground (arith, lookup-insert k q (remove_entry x (index m k)).0 m)
]

pub removed-copies_at :
    (k : Str) (x : Entry) (m : Map Pool)
    → (remove_entry x (index m k)).1 ≡ (if copies_at m k x.id == 0 then false else true)
unfolding copies_at
removed-copies_at k x m = (copies-remove_entry x.id x (index m k)).1

-- `MakeAvailable` moves the message's entry from the processing pool to the primary pool: no copy of any
-- id is lost or made.
pub total-make_available :
    {P : Type 0} (c : MemoryCache) (m : Message P) (q id : Str)
    → OneCopy c
    → total (make_available c m).0 q id ≡ total c q id
unfolding total make_available create_entry
total-make_available c m q id h = ground (
  arith,
  h m.queue m.id,
  removed-copies_at m.queue (create_entry m) c.processing_queues,
  copies_at-enter m.queue (create_entry m) c.queues q id,
  copies_at-leave m.queue (create_entry m) c.processing_queues q id,
)
