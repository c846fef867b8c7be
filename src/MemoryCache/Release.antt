-- ===== src/MemoryCache/Release.antt =====
-- `UnlockMessages` and `TimeoutMessages` of internal/queue/cache/memory_cache.go. A loop
-- `for e := l.Front(); e != nil; e = e.Next()` that calls `l.Remove(e)` ends there: `Remove` clears the
-- links of `e`, and its `Next` is nil.
use deckard.Common.{Bool, Option, none, some, List, [], ◌∷◌, if◌then◌else◌, Str}
use deckard.Common.Int.{ℤ, leb_ℤ, quot}
use deckard.Common.Maps.{Map, insert}
use deckard.Outcome.{Result, ok}
use deckard.Dtime.{Time, time_to_ms, unix}
use deckard.Score.{Score, unit, of_int64, min_score, is_undefined, get_score_by_default_algorithm}
use deckard.Entries.{Entry, Pool, values, remove_entry, insert_entry}
use deckard.MemoryCache.{MemoryCache, LockType, lock_ack, lock_nack, index, lock_map, set_lock_map}

-- `nowMs >= int64(value.lockUntil)`; the conversion cuts towards zero.
unfoldable pub lock_over : ℤ → Entry → Bool
unfolding quot
lock_over now_ms value = leb_ℤ (quot value.lock_until unit) now_ms

-- The first entry that passes the test, and the others.
unfoldable pub take_first : (Entry → Bool) → List Entry → Option (Entry × List Entry)
take_first test [] = none
take_first test (value ∷ rest) =
    let more = take_first test rest in
    if test value
    then some (value, rest)
    else elim more [ none ↦ none | some (e, es) ↦ some (e, value ∷ es) ]

-- The score that an unlocked entry has.
unfoldable pub rescored : Score → Entry → Entry
unfolding is_undefined
rescored default_score value =
    if is_undefined value.score then record value { score = default_score } else value

-- The locked lists, the primary lists and the unlocked ids, over the loop on a lock type's map.
pub record Unlocked : Type 0 where
  pub locked : Map Pool
  pub queues : Map Pool
  pub ids : List Str

unfoldable pub unlock_first : ℤ → Pool → Option (Entry × List Entry)
unfolding lock_over take_first
unlock_first now_ms p = take_first (lock_over now_ms) (values p)

unfoldable pub unlock_each : ℤ → Score → Map Pool → Map Pool → Unlocked
unfolding unlock_first rescored insert_entry
unlock_each now_ms default_score [] queues = record { locked = []; queues = queues; ids = [] }
unlock_each now_ms default_score ((queue, p) ∷ m) queues = elim (unlock_first now_ms p) [
  | none ↦
      let r = unlock_each now_ms default_score m queues in
      record r { locked = (queue, p) ∷ r.locked }
  | some (value, rest) ↦
      let entered = (insert_entry (rescored default_score value) (index queues queue)).0 in
      let r = unlock_each now_ms default_score m (insert queue entered queues) in
      record { locked = (queue, some rest) ∷ r.locked; queues = r.queues; ids = value.id ∷ r.ids }
]

-- `scored_at` is the clock reading for the default score, `now` the later one. The queue is not read.
unfoldable pub unlock_messages :
    Time → Time → MemoryCache → Str → LockType → MemoryCache × Result (List Str)
unfolding unlock_each lock_map set_lock_map
unlock_messages scored_at now cache queue lock_type =
    let default_score : Score = elim lock_type [
      | lock_ack ↦ get_score_by_default_algorithm scored_at
      | lock_nack ↦ min_score
    ] in
    let r = unlock_each (time_to_ms now) default_score (lock_map lock_type cache) cache.queues in
    (set_lock_map lock_type r.locked (record cache { queues = r.queues }), ok r.ids)

-- `value.score <= float64(timeoutTime)`
unfoldable pub timed_out : ℤ → Entry → Bool
timed_out timeout_time value = leb_ℤ value.score (of_int64 timeout_time)

-- An entry that has timed out moves to the primary pool with the least score. The first entry with its
-- id, which `removeEntry` unlinks, is the entry itself, as the ids of a list are distinct.
unfoldable pub timeout_messages : Time → MemoryCache → Str → MemoryCache × Result (List Str)
unfolding timed_out take_first remove_entry insert_entry
timeout_messages now cache queue =
    elim (take_first (timed_out (unix now)) (values (index cache.processing_queues queue))) [
      | none ↦ (cache, ok [])
      | some (e, others) ↦
          let value = record e { score = min_score } in
          (
            record cache {
              processing_queues =
                  insert queue (remove_entry value (index cache.processing_queues queue)).0
                    cache.processing_queues;
              queues = insert queue (insert_entry value (index cache.queues queue)).0 cache.queues;
            },
            ok (value.id ∷ []),
          )
    ]
