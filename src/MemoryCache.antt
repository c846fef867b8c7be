-- ===== src/MemoryCache.antt =====
-- internal/queue/cache/memory_cache.go. Each operation runs under the cache's mutex, so it is one step
-- from a state to a state. A read of the clock is an argument, in nanoseconds.
pub mod Pull
pub mod Release
pub mod Insert
pub mod Copies
pub mod Removing
pub mod Sorting
pub mod SortingBulk
pub mod Steps
pub mod Moves
pub mod Unlocking
pub mod Deadlines
pub mod Draining
pub mod Inserting
pub mod Releasing
pub mod Pulling
use deckard.Common.{
  ℕ, zero, suc, ◌+◌, ◌≡◌, Bool, true, false, ◌||◌, ◌&&◌, not, Option, none, some, List, [], ◌∷◌,
  ◌++◌, ite, if◌then◌else◌, Str, Str_discrete, is_yes, length, foldl, map,
}
use deckard.Common.Int.{ℤ, pos, negsuc, leb_ℤ, ltb_ℤ, eqb_ℤ, add64}
use deckard.Common.Maps.{Map, lookup, insert}
use deckard.Outcome.{
  Result, ok, err, panic, invalid_message_queue, invalid_queue_to_lock, invalid_lock_seconds,
  invalid_queue_to_insert,
}
use deckard.Dtime.{Time, time_to_ms, unix}
use deckard.Score.{Score, of_int64, min_score, is_undefined, get_score_by_default_algorithm}
use deckard.Message.{
  Message, PoolType, primary_pool, processing_pool, lock_ack_pool, lock_nack_pool,
}
use deckard.Entries.{Entry, Pool, values, create_entry, holds, unlink, remove_entry, insert_entry}

pub data LockType : Type 0 where
  lock_ack lock_nack : LockType

pub record MemoryCache : Type 0 where
  pub queues : Map Pool
  pub processing_queues : Map Pool
  pub lock_ack_queues : Map Pool
  pub lock_nack_queues : Map Pool
  pub cache_keys : Map Str

-- `m[queue]`: nil where the key is missing.
abbrev pub index : Map Pool → Str → Pool
index m queue = elim (lookup queue m) [ none ↦ none | some p ↦ p ]

unfoldable pub new_memory_cache : MemoryCache
new_memory_cache = record {
  queues = [];
  processing_queues = [];
  lock_ack_queues = [];
  lock_nack_queues = [];
  cache_keys = [];
}

unfoldable pub flush : MemoryCache → MemoryCache
flush cache = record cache {
  queues = [];
  processing_queues = [];
  lock_ack_queues = [];
  lock_nack_queues = [];
  cache_keys = [];
}

-- The loop over the ids: what is left, and how many entries went.
unfoldable pub remove_ids : List Str → List Entry → List Entry × ℕ
unfolding unlink holds
remove_ids [] es = (es, 0)
remove_ids (id ∷ ids) es =
    let rest = remove_ids ids (unlink id es) in (rest.0, (if holds id es then 1 else 0) + rest.1)

unfoldable pub remove_from_slice : Pool → List Str → Pool × ℕ
unfolding remove_ids
remove_from_slice none ids = (none, 0)
remove_from_slice (some []) ids = (some [], 0)
remove_from_slice (some (e ∷ es)) ids = let r = remove_ids ids (e ∷ es) in (some r.0, r.1)

unfoldable pub remove : MemoryCache → Str → List Str → MemoryCache × Result ℕ
unfolding remove_from_slice
remove cache queue ids =
    let r1 = remove_from_slice (index cache.queues queue) ids in
    let r2 = remove_from_slice (index cache.processing_queues queue) ids in
    let r3 = remove_from_slice (index cache.lock_ack_queues queue) ids in
    let r4 = remove_from_slice (index cache.lock_nack_queues queue) ids in
    (
      record cache {
        queues = insert queue r1.0 cache.queues;
        processing_queues = insert queue r2.0 cache.processing_queues;
        lock_ack_queues = insert queue r3.0 cache.lock_ack_queues;
        lock_nack_queues = insert queue r4.0 cache.lock_nack_queues;
      },
      ok (r1.1 + r2.1 + r3.1 + r4.1),
    )

unfoldable pub make_available : {P : Type 0} → MemoryCache → Message P → MemoryCache × Result Bool
unfolding create_entry remove_entry insert_entry
make_available cache message =
    let q = message.queue in
    let entry = create_entry message in
    let removal = remove_entry entry (index cache.processing_queues q) in
    let taken = record cache { processing_queues = insert q removal.0 cache.processing_queues } in
    let made = record taken {
      queues = insert q (insert_entry entry (index cache.queues q)).0 cache.queues;
    } in
    ite (Str_discrete q []) (cache, err invalid_message_queue)
      (if removal.1 then (made, ok true) else (taken, ok false))

-- The map that `ListQueues` reads.
unfoldable pub pool_map : MemoryCache → PoolType → Map Pool
pool_map cache primary_pool = cache.queues
pool_map cache processing_pool = cache.processing_queues
pool_map cache lock_ack_pool = cache.lock_ack_queues
pool_map cache lock_nack_pool = cache.lock_nack_queues

-- `match_glob queue pattern` is the glob library's match.
unfoldable pub list_matching : (Str → Str → Bool) → Str → Map Pool → List Str
list_matching match_glob pattern [] = []
list_matching match_glob pattern ((queue, none) ∷ m) = list_matching match_glob pattern m
list_matching match_glob pattern ((queue, some []) ∷ m) = list_matching match_glob pattern m
list_matching match_glob pattern ((queue, some (e ∷ es)) ∷ m) =
    let rest = list_matching match_glob pattern m in
    if match_glob queue pattern then queue ∷ rest else rest

unfoldable pub list_queues :
    (Str → Str → Bool) → MemoryCache → Str → PoolType → MemoryCache × Result (List Str)
unfolding pool_map list_matching
list_queues match_glob cache pattern pool_type =
    (cache, ok (list_matching match_glob pattern (pool_map cache pool_type)))

unfoldable pub insert_locked : LockType → Str → Entry → MemoryCache → MemoryCache
unfolding insert_entry
insert_locked lock_ack q entry cache = record cache {
  lock_ack_queues =
      insert q (insert_entry entry (index cache.lock_ack_queues q)).0 cache.lock_ack_queues;
}
insert_locked lock_nack q entry cache = record cache {
  lock_nack_queues =
      insert q (insert_entry entry (index cache.lock_nack_queues q)).0 cache.lock_nack_queues;
}

-- The entry of a message that is locked from `now` on.
unfoldable pub locked_entry : {P : Type 0} → Time → Message P → Entry
unfolding create_entry
locked_entry now message = record (create_entry message) {
  lock_until = of_int64 (add64 (time_to_ms now) message.lock_ms);
}

-- With the processing pool of the queue at hand.
unfoldable pub lock_present :
    {P : Type 0} → Time → MemoryCache → Message P → LockType → MemoryCache × Result Bool
unfolding create_entry remove_entry insert_locked locked_entry
lock_present now cache message lock_type =
    let q = message.queue in
    let entry = create_entry message in
    let removal = remove_entry entry (index cache.processing_queues q) in
    let taken = record cache { processing_queues = insert q removal.0 cache.processing_queues } in
    if removal.1
    then (insert_locked lock_type q (locked_entry now message) taken, ok true)
    else (taken, ok false)

unfoldable pub lock_message :
    {P : Type 0} → Time → MemoryCache → Message P → LockType → MemoryCache × Result Bool
unfolding lock_present
lock_message now cache message lock_type =
    ite (Str_discrete message.queue []) (cache, err invalid_queue_to_lock)
      (if leb_ℤ message.lock_ms (pos 0)
        then (cache, err invalid_lock_seconds)
        else elim (lookup message.queue cache.processing_queues) [
          | none ↦ (cache, ok false)
          | some p ↦ lock_present now cache message lock_type
        ])

-- The map that holds the messages of a lock type.
unfoldable pub lock_map : LockType → MemoryCache → Map Pool
lock_map lock_ack cache = cache.lock_ack_queues
lock_map lock_nack cache = cache.lock_nack_queues

unfoldable pub set_lock_map : LockType → Map Pool → MemoryCache → MemoryCache
set_lock_map lock_ack m cache = record cache { lock_ack_queues = m }
set_lock_map lock_nack m cache = record cache { lock_nack_queues = m }

unfoldable pub is_present_on_pool : Map Pool → Str → Str → Bool
unfolding holds
is_present_on_pool pool queue id = holds id (values (index pool queue))

unfoldable pub is_present_on_any_pool : MemoryCache → Str → Str → Bool
unfolding is_present_on_pool
is_present_on_any_pool cache queue id =
    is_present_on_pool cache.queues queue id
    || (is_present_on_pool cache.processing_queues queue id
        || (is_present_on_pool cache.lock_ack_queues queue id
            || is_present_on_pool cache.lock_nack_queues queue id))

unfoldable pub is_processing : MemoryCache → Str → Str → MemoryCache × Result Bool
unfolding is_present_on_pool
is_processing cache queue id = (cache, ok (is_present_on_pool cache.processing_queues queue id))

-- A missing key reads as the empty string.
unfoldable pub get : MemoryCache → Str → MemoryCache × Result Str
get cache key = (cache, ok (elim (lookup key cache.cache_keys) [ none ↦ [] | some v ↦ v ]))

unfoldable pub set : MemoryCache → Str → Str → MemoryCache × Result (Unit {0})
set cache key value = (record cache { cache_keys = insert key value cache.cache_keys }, ok tt)
