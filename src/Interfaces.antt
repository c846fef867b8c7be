-- ===== src/Interfaces.antt =====
-- What the queue and the housekeeper call: the interfaces of internal/queue/cache/cache.go and
-- internal/queue/storage/storage.go.
use deckard.Common.{ℕ, Bool, Option, List, Str}
use deckard.Common.Int.{ℤ}
use deckard.Outcome.{Result}
use deckard.Dtime.{Readings, Time}
use deckard.Score.{Score}
use deckard.Message.{Message, PoolType}
use deckard.Storage.{FindOptions, QueueConfiguration}
use deckard.MemoryCache.{LockType}

-- `cache.Cache`: the state and the operations, but `Close`. Readings of the clock are arguments.
pub record Cache (P : Type 0) : Type 1 where
  pub State : Type 0
  pub make_available : State → Message P → State × Result Bool
  pub is_processing : State → Str → Str → State × Result Bool
  pub pull_messages :
      (ℕ → Time) → State → Str → ℤ → Option Score → Option Score → ℤ → State × Result (List Str)
  pub timeout_messages : Time → State → Str → State × Result (List Str)
  pub lock_message : Time → State → Message P → LockType → State × Result Bool
  pub unlock_messages : Time → Time → State → Str → LockType → State × Result (List Str)
  pub list_queues : State → Str → PoolType → State × Result (List Str)
  pub insert_cache : State → Str → List (Message P) → State × Result (List Str)
  pub remove : State → Str → List Str → State × Result ℕ
  pub flush : State → State
  pub get : State → Str → State × Result Str
  pub set : State → Str → Str → State × Result (Unit {0})

-- `storage.Storage`, but `Close`.
pub record Storage (P : Type 0) : Type 1 where
  pub State : Type 0
  pub insert_storage : Time → State → List (Message P) → State × Result (ℕ × ℕ)
  pub find : Readings → State → Option FindOptions → Result (List (Message P))
  pub remove_storage : State → Str → List Str → State × Result ℕ
  pub ack_storage : State → Message P → State × Result ℕ
  pub nack_storage : State → Message P → State × Result ℕ
  pub count_storage : State → Option FindOptions → Result ℕ
  pub flush_storage : State → State × Result ℕ
  pub get_string_internal_id : Message P → Str
  pub list_queue_names : State → Result (List Str)
  pub list_queue_prefixes : State → Result (List Str)
  pub edit_queue_configuration : State → QueueConfiguration → State × Result (Unit {0})
  pub get_queue_configuration : State → Str → Result (Option QueueConfiguration)
  pub list_queue_configurations : State → Result (List QueueConfiguration)
