-- ===== src/Housekeeper.antt =====
-- internal/queue/queue_housekeeper.go: the periodic jobs, over any cache and any storage. A shutdown is asked for before
-- each round: `ongoing i` is the answer before round i. Metrics and logging are left out, and so is the
-- test for a cancelled context, which ends the loop as a shutdown does.
pub mod Recovery
pub mod Expiry
pub mod Exceeding
use deckard.Common.{
  ℕ, zero, suc, ◌+◌, ◌≡◌, Bool, true, false, not, ◌&&◌, ◌||◌, Option, none, some, List, [], ◌∷◌,
  ◌++◌, ite, if◌then◌else◌, Str, Str_discrete, is_yes, length, map, codes,
}
use deckard.Common.Int.{ℤ, pos, ltb_ℤ}
use deckard.Outcome.{Error, Result, ok, err, panic}
use deckard.Dtime.{Time}
use deckard.Message.{Message, PoolType, processing_pool, lock_ack_pool, lock_nack_pool}
use deckard.MemoryCache.{LockType, lock_ack, lock_nack}
use deckard.Interfaces.{Cache, Storage}
use deckard.Queue.{Queue, audit_entry, signal_unlock, store, with_cache, timeout_queue}

-- `RECOVERY_RUNNING`
abbrev pub recovery_running : Str
recovery_running = codes "recovery"

abbrev pub lock_type_name : LockType → Str
lock_type_name lock_ack = codes "lock_ack"
lock_type_name lock_nack = codes "lock_nack"

-- The pattern `*`.
abbrev pub every_queue : Str
every_queue = codes "*"

module _ {P : Type 0} (cache : Cache P) (storage : Storage P) (ongoing : ℕ → Bool) where
  -- The loop of `ProcessTimeoutMessages`: an error of one queue is passed over.
  unfoldable pub timeout_queues :
      (ℕ → Time)
      → ℕ
      → Queue cache.State storage.State
      → List Str
      → Queue cache.State storage.State × Result (Unit {0})
  unfolding timeout_queue
  timeout_queues clock i pool [] = (pool, ok tt)
  timeout_queues clock i pool (queue ∷ queues) =
      let r = timeout_queue cache storage (clock i) pool queue in
      let rest = timeout_queues clock (suc i) r.0 queues in
      if ongoing i
      then (pool, ok tt)
      else elim r.1 [ ok ids ↦ rest | err e ↦ rest | panic ↦ (r.0, panic) ]

  unfoldable pub process_timeout_messages :
      (ℕ → Time)
      → Queue cache.State storage.State
      → Queue cache.State storage.State × Result (Unit {0})
  unfolding timeout_queues
  process_timeout_messages clock pool =
      let r = cache.list_queues pool.cache every_queue processing_pool in
      let listed = with_cache r.0 pool in
      elim r.1 [
        | err e ↦ (listed, err e)
        | panic ↦ (listed, panic)
        | ok queues ↦ timeout_queues clock 0 listed queues
      ]

  -- The loop of `unlockMessages`: an error of one queue is passed over.
  unfoldable pub unlock_queues :
      (ℕ → Time × Time)
      → LockType
      → ℕ
      → Queue cache.State storage.State
      → List Str
      → Queue cache.State storage.State × Result (Unit {0})
  unlock_queues clock lock_type i pool [] = (pool, ok tt)
  unlock_queues clock lock_type i pool (queue ∷ queues) =
      let r = cache.unlock_messages (clock i).0 (clock i).1 pool.cache queue lock_type in
      let unlocked = with_cache r.0 pool in
      if ongoing i then (pool, ok tt) else elim r.1 [
        | ok ids ↦
            unlock_queues clock lock_type (suc i)
              (store (map (audit_entry signal_unlock (lock_type_name lock_type) queue) ids)
                unlocked)
              queues
        | err e ↦ unlock_queues clock lock_type (suc i) unlocked queues
        | panic ↦ (unlocked, panic)
      ]

  -- The lists of one lock type: whether they could be read, after the unlocking.
  unfoldable pub unlock_pool :
      (ℕ → Time × Time)
      → LockType
      → PoolType
      → ℕ
      → Queue cache.State storage.State
      → Queue cache.State storage.State × Result (Unit {0})
  unfolding unlock_queues
  unlock_pool clock lock_type pool_type i pool =
      let r = cache.list_queues pool.cache every_queue pool_type in
      let listed = with_cache r.0 pool in
      elim r.1 [
        | err e ↦ (listed, err e)
        | panic ↦ (listed, panic)
        | ok queues ↦ unlock_queues clock lock_type i listed queues
      ]

  -- The second lock type follows where the lists of the first could be read and no shutdown has begun, which is
  -- asked at `between`. An error is logged only.
  unfoldable pub process_lock_pool :
      (ℕ → Time × Time)
      → ℕ
      → Queue cache.State storage.State
      → Queue cache.State storage.State × Result (Unit {0})
  unfolding unlock_pool
  process_lock_pool clock between pool =
      let acks = unlock_pool clock lock_ack lock_ack_pool 0 pool in
      let nacks = unlock_pool clock lock_nack lock_nack_pool (suc between) acks.0 in
      elim acks.1 [
        | err e ↦ (acks.0, ok tt)
        | panic ↦ (acks.0, panic)
        | ok done ↦ if ongoing between then (acks.0, ok tt) else elim nacks.1 [
          | err e ↦ (nacks.0, ok tt)
          | panic ↦ (nacks.0, panic)
          | ok done ↦ (nacks.0, ok tt)
        ]
      ]

module _ {P : Type 0} (cache : Cache P) (storage : Storage P) where
  unfoldable pub is_recovering :
      Queue cache.State storage.State → Queue cache.State storage.State × Result Bool
  is_recovering pool =
      let r = cache.get pool.cache recovery_running in
      let read = with_cache r.0 pool in
      elim r.1 [
        | ok recovery ↦ (read, ok (is_yes (Str_discrete recovery (codes "true"))))
        | err e ↦ (read, err e)
        | panic ↦ (read, panic)
      ]
