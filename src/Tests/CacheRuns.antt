-- ===== src/Tests/CacheRuns.antt =====
-- The memory cache.
use deckard.Common.{
  ℕ, ◌+◌, ◌≡◌, refl, false, none, some, [], ◌∷◌, Str, Str_discrete, codes, arith, if◌then◌else◌,
  take, drop, keep, All, map, exists, not, is_yes, ◌&&◌,
}
use deckard.Common.Int.{add64, ℤ, pos, leb_ℤ}
use deckard.Common.Maps.{lookup, insert}
use deckard.Outcome.{ok}
use deckard.Dtime.{Time, unix, time_to_ms}
use deckard.Score.{out_of_range, of_int64, unit}
use deckard.Message.{Message}
use deckard.Entries.{Entry}
use deckard.Entries.Order.{AtLeast}
use deckard.MemoryCache.{MemoryCache, lock_nack, lock_message, remove, lock_map, new_memory_cache}
use deckard.MemoryCache.Copies.{entries, total, copies_at}
use deckard.MemoryCache.Removing.{size, total-remove, size-remove}
use deckard.MemoryCache.Pull.{pull_messages, processing_entry}
use deckard.MemoryCache.Pulling.{pull_messages_priority}
use deckard.MemoryCache.Release.{lock_over, unlock_messages, timeout_messages, timed_out}
use deckard.MemoryCache.Moves.{first_id, moved, pull_messages-moved, timeout_messages-moved}
use deckard.MemoryCache.Unlocking.{
  first_ids, other_lock, unlock_messages-moved, unlock_messages-first_ids,
}
use deckard.MemoryCache.Draining.{timeouts, timeouts-drain}
use deckard.MemoryCache.Deadlines.{timed_out-processing_entry}
use deckard.MemoryCache.Insert.{insert_cache}
use deckard.MemoryCache.Inserting.{names, total-insert_cache}
use deckard.MemoryCache.Steps.{
  inserts, pulls, locks_message, Reach, fresh, next, Inv, Reach-Inv, Keyed-lock_map,
}

abbrev pub message : Str → Str → ℤ → Message ℕ
message queue id score = record {
  id = id;
  description = [];
  queue = queue;
  expiry_date = pos 2000000000000000000;
  timeless = false;
  metadata = [];
  payload = 0;
  string_payload = [];
  lock_ms = pos 0;
  internal_id = none;
  score = score;
  last_usage = none;
  breakpoint = [];
  last_score_subtract = pos 0;
  total_score_subtract = pos 0;
  usage_count = pos 0;
  queue_prefix = queue;
  queue_suffix = [];
  diagnostics = none;
}

abbrev q : Str
q = codes "orders"

abbrev inserted : MemoryCache
inserted =
    (insert_cache new_memory_cache q
      (message q (codes "b") (pos 7) ∷ message q (codes "a") (pos 3) ∷ [])).0

abbrev clock : ℕ → Time
clock i = pos 1700000000000000000

abbrev pulled : MemoryCache
pulled = (pull_messages clock inserted q (pos 1) none none (pos 0)).0

inserted-Reach : Reach ℕ inserted
inserted-Reach = next fresh (
    inserts new_memory_cache q (message q (codes "b") (pos 7) ∷ message q (codes "a") (pos 3) ∷ []))

pulled-Reach : Reach ℕ pulled
pulled-Reach = next inserted-Reach (pulls inserted clock q (pos 1) none none (pos 0))

inserted-Inv : Inv inserted
inserted-Inv = Reach-Inv inserted-Reach

pulled-Inv : Inv pulled
pulled-Inv = Reach-Inv pulled-Reach

-- The message with the smaller score comes first.
pull_run : (pull_messages clock inserted q (pos 1) none none (pos 0)).1 ≡ ok (codes "a" ∷ [])
unfolding pull_messages insert_cache Str_discrete new_memory_cache lookup insert exists keep
pull_run = refl

Reach-Inv_example : Inv pulled
Reach-Inv_example = Reach-Inv pulled-Reach

pull_messages_priority_example :
    let (after, result) = pull_messages clock inserted q (pos 1) none none (pos 0) in
    (result ≡ ok (map (λ e. e.id) (take 1 (entries inserted.queues q))))
    × (entries after.queues q ≡ drop 1 (entries inserted.queues q))
    × All (λ e. AtLeast e.score (entries after.queues q)) (take 1 (entries inserted.queues q))
pull_messages_priority_example =
    pull_messages_priority clock inserted q 1 (pos 0) (inserted-Inv.ordered.queues q)

pull_messages-moved_example :
    let (after, result) = pull_messages clock inserted q (pos 2) (some (pos 5)) none (pos 0) in
    let ids =
      map
        (λ e. e.id)
        (keep
          (λ e. not (out_of_range (some (pos 5)) none e.score))
          (take 2 (entries inserted.queues q))) in
    (result ≡ ok ids)
    × (copies_at after.queues q (codes "b") + moved q ids q (codes "b")
        ≡ copies_at inserted.queues q (codes "b"))
    × (copies_at after.processing_queues q (codes "b")
        ≡ copies_at inserted.processing_queues q (codes "b") + moved q ids q (codes "b"))
    × (after.lock_ack_queues ≡ inserted.lock_ack_queues)
    × (after.lock_nack_queues ≡ inserted.lock_nack_queues)
pull_messages-moved_example =
    pull_messages-moved clock inserted q 2 (some (pos 5)) none (pos 0) q (codes "b")
      inserted-Inv.one_copy

total-insert_cache_example :
    total (insert_cache pulled q (message q (codes "a") (pos 9) ∷ [])).0 q (codes "a") ≡ (
      if names (message q (codes "a") (pos 9) ∷ []) q (codes "a")
      then 1
      else total pulled q (codes "a"))
unfolding exists Str_discrete
total-insert_cache_example =
    total-insert_cache pulled q (message q (codes "a") (pos 9) ∷ []) q (codes "a")
      pulled-Inv.one_copy refl

total-remove_example : total (remove pulled q (codes "a" ∷ [])).0 q (codes "b") ≡ (
    if is_yes (Str_discrete q q)
      && exists (λ i. is_yes (Str_discrete i (codes "b"))) (codes "a" ∷ [])
    then 0
    else total pulled q (codes "b"))
total-remove_example = total-remove pulled q (codes "a" ∷ []) q (codes "b") pulled-Inv.one_copy

size-remove_example :
    (n : ℕ) × ((remove pulled q (codes "a" ∷ [])).1 ≡ ok n)
    × (size (remove pulled q (codes "a" ∷ [])).0 q + n ≡ size pulled q)
size-remove_example = size-remove pulled q (codes "a" ∷ [])

abbrev locking : Message ℕ
locking = record (message q (codes "a") (pos 1)) { lock_ms = pos 5000 }

-- Locked for five seconds, and six seconds later.
abbrev locked : MemoryCache
locked = (lock_message (clock 0) pulled locking lock_nack).0

abbrev later : Time
later = pos 1700000006000000000

locked-Inv : Inv locked
locked-Inv = Reach-Inv (next pulled-Reach (locks_message pulled (clock 0) locking lock_nack))

unlock_run : (unlock_messages (clock 0) later locked q lock_nack).1 ≡ ok (codes "a" ∷ [])
unfolding unlock_messages lock_message pull_messages insert_cache Str_discrete new_memory_cache
    lookup insert exists keep of_int64 add64 time_to_ms unit
unlock_run = refl

unlock_messages-moved_example :
    let after = (unlock_messages (clock 0) later locked [] lock_nack).0 in
    let ids = first_id (lock_over (time_to_ms later)) (entries (lock_map lock_nack locked) q) in
    (copies_at (lock_map lock_nack after) q (codes "a") + moved q ids q (codes "a")
      ≡ copies_at (lock_map lock_nack locked) q (codes "a"))
    × (copies_at after.queues q (codes "a")
        ≡ copies_at locked.queues q (codes "a") + moved q ids q (codes "a"))
    × (after.processing_queues ≡ locked.processing_queues)
    × (lock_map (other_lock lock_nack) after ≡ lock_map (other_lock lock_nack) locked)
unlock_messages-moved_example =
    unlock_messages-moved (clock 0) later locked [] lock_nack q (codes "a")
      (Keyed-lock_map lock_nack locked locked-Inv.locks) locked-Inv.one_copy

unlock_messages-first_ids_example :
    ((unlock_messages (clock 0) later locked q lock_nack).1
      ≡ ok (first_ids (lock_over (time_to_ms later)) (lock_map lock_nack locked)))
    × (unlock_messages (clock 0) later locked [] lock_nack
        ≡ unlock_messages (clock 0) later locked q lock_nack)
unlock_messages-first_ids_example = unlock_messages-first_ids (clock 0) later locked q [] lock_nack

timeout_messages-moved_example :
    let (after, result) = timeout_messages (pos 1800000000000000000) pulled q in
    let ids =
      first_id (timed_out (unix (pos 1800000000000000000))) (entries pulled.processing_queues q) in
    (result ≡ ok ids)
    × (copies_at after.processing_queues q (codes "a") + moved q ids q (codes "a")
        ≡ copies_at pulled.processing_queues q (codes "a"))
    × (copies_at after.queues q (codes "a")
        ≡ copies_at pulled.queues q (codes "a") + moved q ids q (codes "a"))
    × (after.lock_ack_queues ≡ pulled.lock_ack_queues)
    × (after.lock_nack_queues ≡ pulled.lock_nack_queues)
timeout_messages-moved_example =
    timeout_messages-moved (pos 1800000000000000000) pulled q q (codes "a") pulled-Inv.one_copy

abbrev entry : Entry
entry = record { score = pos 3; id = codes "a"; lock_until = pos 0 }

-- Ten seconds after the pull, a deadline of 300000 milliseconds.
timed_out-processing_entry_example :
    timed_out
      (unix (pos 1700000010000000000))
      (processing_entry (pos 1700000000000000000) (pos 300000) entry)
    ≡ leb_ℤ (pos 1700300000) (pos 1700000010)
unfolding unix
timed_out-processing_entry_example =
    timed_out-processing_entry (pos 1700000000000000000) (pos 1700000010000000000) 1700000000 300000
      1700000010 entry refl refl (omega arith) (omega arith)

-- Long after the deadline.
abbrev much_later : Time
much_later = pos 9000000000000000000

timeouts-drain_example :
    (exists
        (timed_out (unix much_later))
        (entries (timeouts 2 much_later pulled q).processing_queues q)
      ≡ false)
    × ((k id : Str) → total (timeouts 2 much_later pulled q) k id ≡ total pulled k id)
unfolding lookup insert insert_cache pull_messages Str_discrete new_memory_cache exists keep
timeouts-drain_example = timeouts-drain 2 much_later pulled q pulled-Inv.one_copy (omega arith)
