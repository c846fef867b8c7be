-- ===== src/Queue.antt =====
-- internal/queue/queue.go: `Queue`, over any cache and any storage. What the code logs and counts for metrics is
-- left out; what it stores with the auditor is a list.
pub mod Pull
pub mod Memory
pub mod Audit
pub mod Missing
pub mod Releasing
pub mod Adding
use deckard.Common.{
  ℕ, zero, suc, ◌+◌, ◌≡◌, Bool, true, false, not, Option, none, some, List, [], ◌∷◌, ◌++◌, ite,
  if◌then◌else◌, Str, Str_discrete, length, map,
}
use deckard.Common.Int.{ℤ, pos, ltb_ℤ}
use deckard.Common.Maps.{Map, lookup, insert}
use deckard.Outcome.{
  Error, Result, ok, err, panic, message_invalid_queue, message_invalid_id, internal_error_counting,
  inserting_cache_data,
}
use deckard.Dtime.{Readings, Time}
use deckard.Score.{Score}
use deckard.Message.{Message, PoolType}
use deckard.Storage.{FindOptions, QueueConfiguration}
use deckard.MemoryCache.{LockType, lock_ack, lock_nack}
use deckard.Interfaces.{Cache, Storage}

pub data Signal : Type 0 where
  signal_ack signal_nack signal_timeout signal_remove : Signal
  signal_unlock signal_insert_cache signal_missing_storage : Signal

-- What the queue sets of `audit.Entry`.
pub record AuditEntry : Type 0 where
  pub id : Str
  pub queue : Str
  pub last_score_subtract : Score
  pub breakpoint : Str
  pub signal : Signal
  pub reason : Str
  pub lock_ms : ℤ

abbrev pub audit_entry : Signal → Str → Str → Str → AuditEntry
audit_entry signal reason queue id = record {
  id = id;
  queue = queue;
  last_score_subtract = pos 0;
  breakpoint = [];
  signal = signal;
  reason = reason;
  lock_ms = pos 0;
}

-- The entry of an ack or a nack: the lock time is set where the message is locked.
unfoldable pub outcome_entry : {P : Type 0} → Signal → Str → Message P → AuditEntry
outcome_entry signal reason msg = record {
  id = msg.id;
  queue = msg.queue;
  last_score_subtract = msg.last_score_subtract;
  breakpoint = msg.breakpoint;
  signal = signal;
  reason = reason;
  lock_ms = if ltb_ℤ (pos 0) msg.lock_ms then msg.lock_ms else pos 0;
}

pub record Queue (C S : Type 0) : Type 0 where
  pub cache : C
  pub storage : S
  pub audited : List AuditEntry

-- `auditor.Store`
abbrev pub store : {C S : Type 0} → List AuditEntry → Queue C S → Queue C S
store entries pool = record pool { audited = pool.audited ++ entries }

-- A call's new state of the cache, of the storage.
abbrev pub with_cache : {C S : Type 0} → C → Queue C S → Queue C S
with_cache c pool = record pool { cache = c }

abbrev pub with_storage : {C S : Type 0} → S → Queue C S → Queue C S
with_storage s pool = record pool { storage = s }

-- What follows a call of the cache: a value is audited, an error is not.
unfoldable pub after_release :
    {C S : Type 0} → AuditEntry → Queue C S → C × Result Bool → Queue C S × Result Bool
after_release entry pool r = elim r.1 [
  | ok result ↦ (store (entry ∷ []) (with_cache r.0 pool), ok result)
  | err e ↦ (with_cache r.0 pool, err e)
  | panic ↦ (with_cache r.0 pool, panic)
]

module _ {P : Type 0} where
  -- The groups of messages that share a queue.
  unfoldable pub members_by_queue :
      List (Message P) → Map (List (Message P)) → Map (List (Message P))
  members_by_queue [] groups = groups
  members_by_queue (m ∷ ms) groups =
      let queue_messages : List (Message P) = elim (lookup m.queue groups) [
        | none ↦ []
        | some given ↦ given
      ] in
      members_by_queue ms (insert m.queue (queue_messages ++ m ∷ []) groups)

module _ {P : Type 0} (cache : Cache P) (storage : Storage P) where
  -- A missing `opts` counts everything.
  unfoldable pub count : Queue cache.State storage.State → Option FindOptions → Result ℕ
  count pool opts =
      let given = elim opts as (λ o. Option FindOptions) [
        | none ↦ some (record { sort = none; limit = pos 0; internal_filter = none; retry = false })
        | some o ↦ some (record {
          sort = none;
          limit = pos 0;
          internal_filter = o.internal_filter;
          retry = false;
        })
      ] in
      elim (storage.count_storage pool.storage given) [
        | ok n ↦ ok n
        | err e ↦ err internal_error_counting
        | panic ↦ panic
      ]

  unfoldable pub get_storage_messages :
      Readings → Queue cache.State storage.State → Option FindOptions → Result (List (Message P))
  get_storage_messages now pool opt = storage.find now pool.storage opt

  unfoldable pub add_messages_to_storage :
      Time
      → Queue cache.State storage.State
      → List (Message P)
      → Queue cache.State storage.State × Result (ℕ × ℕ)
  add_messages_to_storage now pool messages =
      let r = storage.insert_storage now pool.storage messages in (with_storage r.0 pool, r.1)

  unfoldable pub add_groups :
      Str
      → Map (List (Message P))
      → Queue cache.State storage.State
      → ℕ
      → Queue cache.State storage.State × Result ℕ
  add_groups reason [] pool count = (pool, ok count)
  add_groups reason ((queue_name, elements) ∷ groups) pool count =
      let r = cache.insert_cache pool.cache queue_name elements in
      elim r.1 [
        | ok insertions ↦
            add_groups reason groups
              (store (map (audit_entry signal_insert_cache reason queue_name) insertions)
                (with_cache r.0 pool))
              (count + length insertions)
        | err e ↦ (with_cache r.0 pool, err (inserting_cache_data e))
        | panic ↦ (with_cache r.0 pool, panic)
      ]

  -- `order` is the order in which the runtime gives the groups.
  unfoldable pub add_messages_to_cache_with_audit_reason :
      (Map (List (Message P)) → Map (List (Message P)))
      → Str
      → Queue cache.State storage.State
      → List (Message P)
      → Queue cache.State storage.State × Result ℕ
  unfolding members_by_queue add_groups
  add_messages_to_cache_with_audit_reason order reason pool messages =
      add_groups reason (order (members_by_queue messages [])) pool 0

  unfoldable pub add_messages_to_cache :
      (Map (List (Message P)) → Map (List (Message P)))
      → Queue cache.State storage.State
      → List (Message P)
      → Queue cache.State storage.State × Result ℕ
  unfolding add_messages_to_cache_with_audit_reason
  add_messages_to_cache order pool messages =
      add_messages_to_cache_with_audit_reason order [] pool messages

  -- The end of `Ack` and `Nack`: lock the message if it has a lock time, else make it available, then audit.
  unfoldable pub release :
      Time
      → LockType
      → Signal
      → Str
      → Queue cache.State storage.State
      → Message P
      → Queue cache.State storage.State × Result Bool
  unfolding after_release
  release now lock_type signal reason pool msg =
      after_release (outcome_entry signal reason msg) pool (
        if ltb_ℤ (pos 0) msg.lock_ms
        then cache.lock_message now pool.cache msg lock_type
        else cache.make_available pool.cache msg)

  unfoldable pub nack_message :
      Time
      → Queue cache.State storage.State
      → Option (Message P)
      → Str
      → Queue cache.State storage.State × Result Bool
  unfolding release
  nack_message now pool none reason = (pool, ok false)
  nack_message now pool (some msg) reason =
      ite (Str_discrete msg.queue []) (pool, err message_invalid_queue)
        (ite (Str_discrete msg.id []) (pool, err message_invalid_id)
          (let r = storage.nack_storage pool.storage msg in
            elim r.1 [
              | ok modified ↦ release now lock_nack signal_nack reason (with_storage r.0 pool) msg
              | err e ↦ (with_storage r.0 pool, err e)
              | panic ↦ (with_storage r.0 pool, panic)
            ]))

  unfoldable pub ack_message :
      Time
      → Queue cache.State storage.State
      → Option (Message P)
      → Str
      → Queue cache.State storage.State × Result Bool
  unfolding release
  ack_message now pool none reason = (pool, ok false)
  ack_message now pool (some msg) reason =
      ite (Str_discrete msg.queue []) (pool, err message_invalid_queue)
        (ite (Str_discrete msg.id []) (pool, err message_invalid_id)
          (let r = storage.ack_storage pool.storage msg in
            elim r.1 [
              | ok modified ↦ release now lock_ack signal_ack reason (with_storage r.0 pool) msg
              | err e ↦ (with_storage r.0 pool, err e)
              | panic ↦ (with_storage r.0 pool, panic)
            ]))

  unfoldable pub timeout_queue :
      Time
      → Queue cache.State storage.State
      → Str
      → Queue cache.State storage.State × Result (List Str)
  timeout_queue now pool queue =
      let r = cache.timeout_messages now pool.cache queue in
      elim r.1 [
        | ok ids ↦
            (store (map (audit_entry signal_timeout [] queue) ids) (with_cache r.0 pool), ok ids)
        | err e ↦ (with_cache r.0 pool, err e)
        | panic ↦ (with_cache r.0 pool, panic)
      ]

  -- The counts of the cache and the storage, and the error: a failing cache leaves what the storage removed.
  unfoldable pub remove_messages :
      Queue cache.State storage.State
      → Str
      → Str
      → List Str
      → Queue cache.State storage.State × (ℕ × ℕ × Result (Unit {0}))
  remove_messages pool queue reason ids =
      let s = storage.remove_storage pool.storage queue ids in
      let c = cache.remove pool.cache queue ids in
      let removed = with_cache c.0 (with_storage s.0 pool) in
      elim s.1 [
        | err e ↦ (with_storage s.0 pool, (0, 0, err e))
        | panic ↦ (with_storage s.0 pool, (0, 0, panic))
        | ok storage_count ↦ elim c.1 [
          | err e ↦ (removed, (0, storage_count, err e))
          | panic ↦ (removed, (0, storage_count, panic))
          | ok cache_count ↦ (
            store (map (audit_entry signal_remove reason queue) ids) removed,
            (cache_count, storage_count, ok tt),
          )
        ]
      ]

  unfoldable pub flush_queue :
      Queue cache.State storage.State → Queue cache.State storage.State × Result Bool
  flush_queue pool =
      let s = storage.flush_storage pool.storage in
      let flushed = with_cache (cache.flush pool.cache) (with_storage s.0 pool) in
      elim s.1 [
        | ok deleted ↦ (flushed, ok true)
        | err e ↦ (flushed, err e)
        | panic ↦ (flushed, panic)
      ]
