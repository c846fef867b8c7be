-- ===== src/MemoryCache/Sorting.antt =====
-- Every operation keeps every list of the cache in the order of its scores.
use deckard.Common.{
  Bool, true, false, Option, none, some, List, [], ◌∷◌, ite, if◌then◌else◌, Str, Str_discrete,
}
use deckard.Common.Int.{pos, leb_ℤ}
use deckard.Common.Maps.{Map, lookup, insert}
use deckard.Outcome.{Result, ok}
use deckard.Dtime.{Time}
use deckard.Message.{Message}
use deckard.Entries.{Entry, Pool, values, create_entry, insert_entry, remove_entry, unlink}
use deckard.Entries.Order.{IsSorted, insert_entry-IsSorted, remove_entry-IsSorted, unlink-IsSorted}
use deckard.Common.{if_pos, if_neg}
use deckard.MemoryCache.{
  MemoryCache, LockType, lock_ack, lock_nack, index, make_available, lock_present, insert_locked,
  locked_entry, lock_message, remove, remove_ids, remove_from_slice,
}
use deckard.MemoryCache.Copies.{entries, entries-insert}

-- Every list of the map is in order.
abbrev pub InOrder : Map Pool → Type 0
InOrder m = (q : Str) → IsSorted (entries m q)

pub insert-InOrder :
    (k : Str) (p : Pool) (m : Map Pool) → InOrder m → IsSorted (values p) → InOrder (insert k p m)
insert-InOrder k p m h s q = elim (Str_discrete k q) [
  | yes e ↦ rw (entries-insert k q p m, if_pos (Str_discrete k q) e) s
  | no e ↦ rw (entries-insert k q p m, if_neg (Str_discrete k q) e) (h q)
]

pub enter-InOrder :
    (k : Str) (x : Entry) (m : Map Pool)
    → InOrder m
    → InOrder (insert k (insert_entry x (index m k)).0 m)
enter-InOrder k x m h = insert-InOrder k _ m h (insert_entry-IsSorted x (index m k) (h k))

pub leave-InOrder :
    (k : Str) (x : Entry) (m : Map Pool)
    → InOrder m
    → InOrder (insert k (remove_entry x (index m k)).0 m)
leave-InOrder k x m h = insert-InOrder k _ m h (remove_entry-IsSorted x (index m k) (h k))

-- All lists of the cache are in order.
pub record Ordered (c : MemoryCache) : Type 0 where
  pub queues : InOrder c.queues
  pub processing : InOrder c.processing_queues
  pub locked_ack : InOrder c.lock_ack_queues
  pub locked_nack : InOrder c.lock_nack_queues

remove_ids-IsSorted :
    (ids : List Str) (es : List Entry) → IsSorted es → IsSorted (remove_ids ids es).0
unfolding remove_ids
remove_ids-IsSorted [] es h = h
remove_ids-IsSorted (i ∷ ids) es h = remove_ids-IsSorted ids (unlink i es) (unlink-IsSorted i es h)

slice-IsSorted :
    (p : Pool) (ids : List Str)
    → IsSorted (values p)
    → IsSorted (values (remove_from_slice p ids).0)
unfolding remove_from_slice
slice-IsSorted none ids h = h
slice-IsSorted (some []) ids h = h
slice-IsSorted (some (e ∷ es)) ids h = remove_ids-IsSorted ids (e ∷ es) h

pub remove-Ordered :
    (c : MemoryCache) (queue : Str) (ids : List Str) → Ordered c → Ordered (remove c queue ids).0
unfolding remove
remove-Ordered c queue ids o = record {
  queues = insert-InOrder queue _ c.queues o.queues (slice-IsSorted _ ids (o.queues queue));
  processing =
      insert-InOrder queue _ c.processing_queues o.processing
        (slice-IsSorted _ ids (o.processing queue));
  locked_ack =
      insert-InOrder queue _ c.lock_ack_queues o.locked_ack
        (slice-IsSorted _ ids (o.locked_ack queue));
  locked_nack =
      insert-InOrder queue _ c.lock_nack_queues o.locked_nack
        (slice-IsSorted _ ids (o.locked_nack queue));
}

abbrev pub without_processing : Str → Entry → MemoryCache → MemoryCache
without_processing k x c = record c {
  processing_queues = insert k (remove_entry x (index c.processing_queues k)).0 c.processing_queues;
}

without-Ordered :
    (k : Str) (x : Entry) (c : MemoryCache) → Ordered c → Ordered (without_processing k x c)
without-Ordered k x c o = record {
  queues = o.queues;
  processing = leave-InOrder k x c.processing_queues o.processing;
  locked_ack = o.locked_ack;
  locked_nack = o.locked_nack;
}

pub primary-Ordered :
    (c : MemoryCache) (m : Map Pool) → Ordered c → InOrder m → Ordered (record c { queues = m })
primary-Ordered c m o h = record {
  queues = h;
  processing = o.processing;
  locked_ack = o.locked_ack;
  locked_nack = o.locked_nack;
}

insert_locked-Ordered :
    (t : LockType) (k : Str) (x : Entry) (c : MemoryCache)
    → Ordered c
    → Ordered (insert_locked t k x c)
unfolding insert_locked
insert_locked-Ordered lock_ack k x c o = record {
  queues = o.queues;
  processing = o.processing;
  locked_ack = enter-InOrder k x c.lock_ack_queues o.locked_ack;
  locked_nack = o.locked_nack;
}
insert_locked-Ordered lock_nack k x c o = record {
  queues = o.queues;
  processing = o.processing;
  locked_ack = o.locked_ack;
  locked_nack = enter-InOrder k x c.lock_nack_queues o.locked_nack;
}

pub if-Ordered :
    {B : Type 0} (b : Bool) (x y : MemoryCache × Result B)
    → Ordered x.0
    → Ordered y.0
    → Ordered (if b then x else y).0
if-Ordered true x y h k = h
if-Ordered false x y h k = k

ite-Ordered :
    {A B : Type 0} (d : Dec A) (x y : MemoryCache × Result B)
    → Ordered x.0
    → Ordered y.0
    → Ordered (ite d x y).0
ite-Ordered (yes a) x y h k = h
ite-Ordered (no a) x y h k = k

module _ {P : Type 0} (c : MemoryCache) (m : Message P) (o : Ordered c) where
  pub make_available-Ordered : Ordered (make_available c m).0
  unfolding make_available
  make_available-Ordered =
      let taken = without-Ordered m.queue (create_entry m) c o in
      ite-Ordered (Str_discrete m.queue []) _ _ o (
        if-Ordered (remove_entry (create_entry m) (index c.processing_queues m.queue)).1 _ _
          (primary-Ordered _ _ taken (enter-InOrder m.queue (create_entry m) c.queues o.queues))
          taken)

  pub lock_message-Ordered : (now : Time) (t : LockType) → Ordered (lock_message now c m t).0
  unfolding lock_message
  lock_message-Ordered now t =
      let taken = without-Ordered m.queue (create_entry m) c o in
      let present : Ordered (lock_present now c m t).0 =
        unfold lock_present in
        if-Ordered (remove_entry (create_entry m) (index c.processing_queues m.queue)).1 _ _
          (insert_locked-Ordered t m.queue (locked_entry now m) _ taken) taken in
      ite-Ordered (Str_discrete m.queue []) _ _ o (
        if-Ordered (leb_ℤ m.lock_ms (pos 0)) _ _ o
          (on_lookup (lookup m.queue c.processing_queues) present))
    where
      on_lookup :
          (l : Option Pool)
          → Ordered (lock_present now c m t).0
          → Ordered
              (elim l as (λ x. MemoryCache × Result Bool) [
                | none ↦ (c, ok false)
                | some p ↦ lock_present now c m t
              ]).0
      on_lookup none h = o
      on_lookup (some p) h = h
