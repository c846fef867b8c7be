-- ===== src/Queue/Releasing.antt =====
-- `Ack` and `Nack` over the memory cache and the memory storage.
use deckard.Common.{
  ◌==◌, ℕ, ◌≡◌, ◌≢◌, refl, subst, Bool, true, false, not, some, [], Str, arith, inl, inr,
  Option-cases, Bool-cases,
}
use deckard.Common.Int.{ℤ, pos, ltb_ℤ, leb_ℤ}
use deckard.Common.Maps.{lookup}
use deckard.Outcome.{Result, ok}
use deckard.Dtime.{Time}
use deckard.Score.{Score}
use deckard.Message.{Message}
use deckard.Entries.{create_entry}
use deckard.MemoryCache.{
  MemoryCache, LockType, lock_ack, lock_nack, make_available, lock_message, lock_present,
  insert_locked, locked_entry,
}
use deckard.MemoryCache.Copies.{
  total, OneCopy, copies_at, copies_at-leave, removed-copies_at, total-make_available,
}
use deckard.MemoryCache.Removing.{total-lock_message}
use deckard.MemoryStorage.{MemoryStorage, get_key, ack_storage, nack_storage}
use deckard.Interfaces.{Cache, Storage}
use deckard.Queue.{
  Queue, Signal, outcome_entry, AuditEntry, signal_ack, signal_nack, release, after_release,
  ack_message, nack_message, with_storage,
}
use deckard.Queue.Memory.{memory_cache, memory_storage}

-- A positive lock time is one that `LockMessage` takes.
leb-ltb : (n : ℤ) → ltb_ℤ (pos 0) n ≡ true → leb_ℤ n (pos 0) ≡ false
leb-ltb n h = ground (arith, h)

module _ {P : Type 0} where
  make_available-released :
      (c : MemoryCache) (m : Message P)
      → OneCopy c
      → m.queue ≢ []
      → ((make_available c m).1 ≡ ok (not (copies_at c.processing_queues m.queue m.id == 0)))
        × (copies_at (make_available c m).0.processing_queues m.queue m.id ≡ 0)
  unfolding make_available create_entry total
  make_available-released c m h q = ground (
    arith,
    h m.queue m.id,
    removed-copies_at m.queue (create_entry m) c.processing_queues,
    copies_at-leave m.queue (create_entry m) c.processing_queues m.queue m.id,
  )

  lock_message-released :
      (now : Time) (c : MemoryCache) (m : Message P) (t : LockType)
      → OneCopy c
      → m.queue ≢ []
      → ltb_ℤ (pos 0) m.lock_ms ≡ true
      → ((lock_message now c m t).1 ≡ ok (not (copies_at c.processing_queues m.queue m.id == 0)))
        × (copies_at (lock_message now c m t).0.processing_queues m.queue m.id ≡ 0)
  unfolding lock_message create_entry total lock_present insert_locked locked_entry
  lock_message-released now c m lock_ack h q l = ground (
    arith,
    h m.queue m.id,
    leb-ltb m.lock_ms l,
    removed-copies_at m.queue (create_entry m) c.processing_queues,
    copies_at-leave m.queue (create_entry m) c.processing_queues m.queue m.id,
  )
  lock_message-released now c m lock_nack h q l = ground (
    arith,
    h m.queue m.id,
    leb-ltb m.lock_ms l,
    removed-copies_at m.queue (create_entry m) c.processing_queues,
    copies_at-leave m.queue (create_entry m) c.processing_queues m.queue m.id,
  )

  -- The call says whether the message was processing, and no pool but the processing pool loses it.
  abbrev pub Released :
      Queue MemoryCache (MemoryStorage P)
      → Message P
      → Queue MemoryCache (MemoryStorage P) × Result Bool
      → Type 0
  Released pool m r =
      (r.1 ≡ ok (not (copies_at pool.cache.processing_queues m.queue m.id == 0)))
      × (copies_at r.0.cache.processing_queues m.queue m.id ≡ 0)
      × ((q id : Str) → total r.0.cache q id ≡ total pool.cache q id)
      × (r.0.storage ≡ pool.storage)

  after_release-Released :
      (entry : AuditEntry) (pool : Queue MemoryCache (MemoryStorage P)) (m : Message P)
      (r : MemoryCache × Result Bool)
      → (r.1 ≡ ok (not (copies_at pool.cache.processing_queues m.queue m.id == 0)))
        × (copies_at r.0.processing_queues m.queue m.id ≡ 0)
      → ((q id : Str) → total r.0 q id ≡ total pool.cache q id)
      → Released pool m (after_release entry pool r)
  unfolding after_release
  after_release-Released entry pool m (c, r) (e, z) t = rw e (refl, z, t, refl)

module _ {P : Type 0} (cache : Cache P) (storage : Storage P) where
  ack_message-release :
      (now : Time) (pool : Queue cache.State storage.State) (m : Message P) (reason : Str) (n : ℕ)
      → m.queue ≢ []
      → m.id ≢ []
      → (storage.ack_storage pool.storage m).1 ≡ ok n
      → release cache storage now lock_ack signal_ack reason
          (with_storage (storage.ack_storage pool.storage m).0 pool)
          m
        ≡ ack_message cache storage now (pool) (some m) reason
  unfolding ack_message
  ack_message-release now pool m reason n q i e = ground (arith, q, i, e)

  nack_message-release :
      (now : Time) (pool : Queue cache.State storage.State) (m : Message P) (reason : Str) (n : ℕ)
      → m.queue ≢ []
      → m.id ≢ []
      → (storage.nack_storage pool.storage m).1 ≡ ok n
      → release cache storage now lock_nack signal_nack reason
          (with_storage (storage.nack_storage pool.storage m).0 pool)
          m
        ≡ nack_message cache storage now pool (some m) reason
  unfolding nack_message
  nack_message-release now pool m reason n q i e = ground (arith, q, i, e)

module _ {P : Type 0} (match_glob : Str → Str → Bool) (add_float : Score → Score → Score) where
  release-Released :
      (now : Time) (t : LockType) (signal : Signal) (reason : Str)
      (pool : Queue MemoryCache (MemoryStorage P)) (m : Message P)
      → OneCopy pool.cache
      → m.queue ≢ []
      → Released pool m (
          release
            (memory_cache P match_glob)
            (memory_storage P add_float)
            now
            t
            signal
            reason
            pool
            m)
  unfolding release
  release-Released now t signal reason pool m h q = elim (Bool-cases (ltb_ℤ (pos 0) m.lock_ms)) [
    | inl l ↦ rw l (
        after_release-Released (outcome_entry signal reason m) pool m
          (lock_message now pool.cache m t) (lock_message-released now pool.cache m t h q l)
          (λ k id. total-lock_message now pool.cache m t k id h))
    | inr l ↦ rw l (
        after_release-Released (outcome_entry signal reason m) pool m (make_available pool.cache m)
          (make_available-released pool.cache m h q)
          (λ k id. total-make_available pool.cache m k id h))
  ]

  ack_storage-ok :
      (s : MemoryStorage P) (m : Message P) → (n : ℕ) × ((ack_storage add_float s m).1 ≡ ok n)
  unfolding ack_storage
  ack_storage-ok s m = elim (Option-cases (lookup (get_key m) s.docs)) [
    | inl e ↦ (0, rw (e, ack_storage) refl)
    | inr (d, e) ↦ (1, rw (e, ack_storage) refl)
  ]

  nack_storage-ok : (s : MemoryStorage P) (m : Message P) → (n : ℕ) × ((nack_storage s m).1 ≡ ok n)
  unfolding nack_storage
  nack_storage-ok s m = elim (Option-cases (lookup (get_key m) s.docs)) [
    | inl e ↦ (0, rw (e, nack_storage) refl)
    | inr (d, e) ↦ (1, rw (e, nack_storage) refl)
  ]

  -- Over a memory cache with no id twice in a queue `Ack` and `Nack` of a message with a queue and an id never fail: the lock times that
  -- `LockMessage` refuses are made available. The result is whether the message was processing, afterwards it is not, and no
  -- copy of any id is lost or made. The storage is the one that its own Ack or Nack leaves, processing or not.
  pub ack_message-nack_message-Released :
      (now : Time) (pool : Queue MemoryCache (MemoryStorage P)) (m : Message P) (reason : Str)
      → OneCopy pool.cache
      → m.queue ≢ []
      → m.id ≢ []
      → Released (with_storage (ack_storage add_float pool.storage m).0 pool) m (
          ack_message
            (memory_cache P match_glob)
            (memory_storage P add_float)
            now
            pool
            (some m)
            reason)
        × Released (with_storage (nack_storage pool.storage m).0 pool) m (
            nack_message
              (memory_cache P match_glob)
              (memory_storage P add_float)
              now
              pool
              (some m)
              reason)
  ack_message-nack_message-Released now pool m reason h q i =
      let cache = memory_cache P match_glob in
      let storage = memory_storage P add_float in
      let acked_pool = with_storage (ack_storage add_float pool.storage m).0 pool in
      let nacked_pool = with_storage (nack_storage pool.storage m).0 pool in
      let (k, a) = ack_storage-ok pool.storage m in
      let (l, n) = nack_storage-ok pool.storage m in
      (
        subst (Released acked_pool m) (ack_message-release cache storage now pool m reason k q i a)
            (release-Released now lock_ack signal_ack reason acked_pool m h q),
        subst (Released nacked_pool m)
            (nack_message-release cache storage now pool m reason l q i n)
            (release-Released now lock_nack signal_nack reason nacked_pool m h q),
      )
