-- ===== src/Queue/Audit.antt =====
-- What the queue's operations store with the auditor, over any cache and any storage.
use deckard.Common.{◌≡◌, Bool, some, List, [], ◌∷◌, ◌++◌, Str, arith}
use deckard.Outcome.{Result, ok, err, panic}
use deckard.Dtime.{Time}
use deckard.Message.{Message}
use deckard.MemoryCache.{LockType, lock_ack, lock_nack}
use deckard.Interfaces.{Cache, Storage}
use deckard.Queue.{
  Queue, AuditEntry, Signal, signal_ack, signal_nack, outcome_entry, release, after_release,
  ack_message, nack_message, with_storage,
}

-- One entry more where the result is a value, none where it is an error.
abbrev pub AuditedOnce :
    {C S : Type 0} → List AuditEntry → AuditEntry → Queue C S × Result Bool → Type 0
AuditedOnce before e r = r.0.audited ≡ elim r.1 as (λ r. List AuditEntry) [
  | ok result ↦ before ++ e ∷ []
  | err error ↦ before
  | panic ↦ before
]

module _ {P : Type 0} (cache : Cache P) (storage : Storage P) where
  release-AuditedOnce :
      (now : Time) (t : LockType) (signal : Signal) (reason : Str)
      (pool : Queue cache.State storage.State) (msg : Message P)
      → AuditedOnce pool.audited
          (outcome_entry signal reason msg)
          (release cache storage now t signal reason pool msg)
  unfolding release after_release
  release-AuditedOnce now t signal reason pool msg = ground arith

  -- `Ack` and `Nack` of a message store exactly one audit entry, with their signal, if they return a value, and none if they
  -- return an error or panic, whatever the cache and the storage answer.
  pub ack_message-nack_message-AuditedOnce :
      (now : Time) (pool : Queue cache.State storage.State) (msg : Message P) (reason : Str)
      → AuditedOnce pool.audited
          (outcome_entry signal_ack reason msg)
          (ack_message cache storage now pool (some msg) reason)
        × AuditedOnce pool.audited
            (outcome_entry signal_nack reason msg)
            (nack_message cache storage now pool (some msg) reason)
  unfolding ack_message nack_message
  ack_message-nack_message-AuditedOnce now pool msg reason = ground (
    arith,
    release-AuditedOnce now lock_ack signal_ack reason
        (with_storage (storage.ack_storage pool.storage msg).0 pool) msg,
    release-AuditedOnce now lock_nack signal_nack reason
        (with_storage (storage.nack_storage pool.storage msg).0 pool) msg,
  )
