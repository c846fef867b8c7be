-- ===== src/RedisCache.antt =====
-- internal/queue/cache/redis_cache.go, against a single Redis server: `RedisCache` and its operations. Scripts holds
-- redis_cache_scripts.go, and Keys the names of keys. A reading of the clock is an argument.
pub mod Keys
pub mod Scripts
pub mod Lists
pub mod Naming
pub mod Parsing
pub mod Places
pub mod Moving
pub mod Entering
pub mod Operations
pub mod Steps
pub mod Flushing
pub mod Calls
pub mod Agreement
use deckard.Common.{
  ℕ, ◌+◌, Bool, true, false, not, Option, none, some, List, [], ◌∷◌, ◌++◌, ite, if◌then◌else◌, Str,
  Str_discrete, is_yes, length, map, take, drop, exists, ltb, suc, zero,
}
use deckard.Common.Int.{ℤ, pos, leb_ℤ, eqb_ℤ, add64}
use deckard.Outcome.{
  Error, Result, ok, err, panic, invalid_message_queue, invalid_queue_to_lock, invalid_lock_time,
  invalid_queue_to_insert_data, queue_name_contains_hash_tag, removing_cache_elements,
  making_available, locking_cache_element, parsing_result, inserting_cache, checking_processing,
  getting_cache_element, setting_cache_element,
}
use deckard.Dtime.{Time, time_to_ms}
use deckard.Score.{Score, of_int64, min_score, get_score_by_default_algorithm}
use deckard.Message.{Message}
use deckard.MemoryCache.{LockType, lock_ack, lock_nack}
use deckard.MemoryCache.Pull.{default_timeout_ms}
use deckard.Redis.{Redis, done}
use deckard.RedisCache.Keys.{
  is_valid_queue_name, active_pool, processing_pool, lock_pool, lock_pool_score, general_cache_key,
}
use deckard.RedisCache.Scripts.{
  remove_elements, move_element, lock_element, add_elements, move_filtered_elements,
  unlock_elements, pull_elements,
}

-- An error of the client, wrapped in the operation's.
abbrev pub wrapped : {A S : Type 0} → (Error → Error) → S × Result A → S × Result A
wrapped wrap (s, ok a) = (s, ok a)
wrapped wrap (s, err e) = (s, err (wrap e))
wrapped wrap (s, panic) = (s, panic)

-- The result of a script that moved one element, or none.
abbrev pub is_one : {S : Type 0} → S × Result ℕ → S × Result Bool
is_one (s, ok zero) = (s, ok false)
is_one (s, ok (suc zero)) = (s, ok true)
is_one (s, ok (suc (suc n))) = (s, ok false)
is_one (s, err e) = (s, err e)
is_one (s, panic) = (s, panic)

-- `gopart.Partition(len, size)`: the list in parts of `size`, the last one of what is left. The fuel is
-- the length.
unfoldable pub partition {ℓ} : {A : Type ℓ} → ℕ → ℕ → List A → List (List A)
unfolding take drop
partition zero size xs = []
partition (suc fuel) size [] = []
partition (suc fuel) size (x ∷ xs) = take size (x ∷ xs) ∷ partition fuel size (drop size (x ∷ xs))

module _ (r : Redis) (prefix : Str) where
  -- `validateQueueName` before the rest of an operation.
  abbrev pub for_valid : {A : Type 0} → Str → r.State → r.State × Result A → r.State × Result A
  for_valid queue s rest =
      if is_valid_queue_name queue then rest else (s, err queue_name_contains_hash_tag)

  -- The loop of `Remove` over the parts of the ids. The count of an error is dropped by all callers.
  unfoldable pub remove_parts : Str → List (List Str) → ℕ → r.State → r.State × Result ℕ
  unfolding remove_elements
  remove_parts queue [] total s = (s, ok total)
  remove_parts queue (ids ∷ parts) total s =
      let keys =
        active_pool prefix queue
        ∷ processing_pool prefix queue
        ∷ lock_pool prefix queue lock_ack
        ∷ lock_pool prefix queue lock_nack
        ∷ lock_pool_score prefix queue lock_ack
        ∷ lock_pool_score prefix queue lock_nack
        ∷ [] in
      let run = r.run (λ t. done (remove_elements r keys ids t)) s in
      elim run.1 [
        | ok n ↦ remove_parts queue parts (total + n) run.0
        | err e ↦ (run.0, err (removing_cache_elements e))
        | panic ↦ (run.0, panic)
      ]

  unfoldable pub remove_redis : r.State → Str → List Str → r.State × Result ℕ
  unfolding is_valid_queue_name partition remove_parts
  remove_redis s queue ids =
      for_valid queue s (remove_parts queue (partition (length ids) 4000 ids) 0 s)

  unfoldable pub make_available_redis : {P : Type 0} → r.State → Message P → r.State × Result Bool
  unfolding is_valid_queue_name move_element
  make_available_redis s message =
      ite (Str_discrete message.queue []) (s, err invalid_message_queue)
        (for_valid message.queue s (
          is_one (
            wrapped making_available (
              r.run
                (λ t. done (
                  move_element r (active_pool prefix message.queue)
                    (processing_pool prefix message.queue) message.score message.id t))
                s))))

  unfoldable pub lock_message_redis :
      {P : Type 0} → Time → r.State → Message P → LockType → r.State × Result Bool
  unfolding is_valid_queue_name lock_element
  lock_message_redis now s message lock_type =
      let lock_score = of_int64 (add64 (time_to_ms now) message.lock_ms) in
      ite (Str_discrete message.queue []) (s, err invalid_queue_to_lock)
        (for_valid message.queue s (
          if leb_ℤ message.lock_ms (pos 0)
          then (s, err invalid_lock_time)
          else is_one (
              wrapped locking_cache_element (
                r.run
                  (λ t. done (
                    lock_element r (processing_pool prefix message.queue)
                      (lock_pool prefix message.queue lock_type)
                      (lock_pool_score prefix message.queue lock_type) lock_score message.id
                      message.score t))
                  s))))

  -- `scored_at` is the clock reading for the default score, `now` the later one.
  unfoldable pub unlock_messages_redis :
      Time → Time → r.State → Str → LockType → r.State × Result (List Str)
  unfolding is_valid_queue_name unlock_elements
  unlock_messages_redis scored_at now s queue lock_type =
      let default_score : Score = elim lock_type [
        | lock_ack ↦ get_score_by_default_algorithm scored_at
        | lock_nack ↦ min_score
      ] in
      for_valid queue s (
        wrapped parsing_result (
          r.run
            (λ t. done (
              unlock_elements r (lock_pool prefix queue lock_type) (active_pool prefix queue)
                (lock_pool_score prefix queue lock_type) (pos 1000) (of_int64 (time_to_ms now))
                default_score t))
            s))

  unfoldable pub pull_messages_redis :
      Time → r.State → Str → ℤ → Option Score → Option Score → ℤ → r.State × Result (List Str)
  unfolding is_valid_queue_name pull_elements
  pull_messages_redis now s queue n min_score max_score ack_deadline_ms =
      let deadline =
        if eqb_ℤ ack_deadline_ms (pos 0) then default_timeout_ms else ack_deadline_ms in
      for_valid queue s (
        wrapped parsing_result (
          r.run
            (pull_elements r (active_pool prefix queue) (processing_pool prefix queue) n
              (of_int64 (add64 (time_to_ms now) deadline)) min_score max_score)
            s))

  unfoldable pub timeout_messages_redis : Time → r.State → Str → r.State × Result (List Str)
  unfolding is_valid_queue_name move_filtered_elements
  timeout_messages_redis now s queue = for_valid queue s (
      wrapped parsing_result (
        r.run
          (move_filtered_elements r (active_pool prefix queue) (processing_pool prefix queue)
            (of_int64 (time_to_ms now)) min_score (pos 1000))
          s))

  -- The loop of `Insert` over the parts of the messages.
  unfoldable pub insert_parts :
      {P : Type 0}
      → Str
      → List (List (Message P))
      → List Str
      → r.State
      → r.State × Result (List Str)
  unfolding add_elements
  insert_parts queue [] insertions s = (s, ok insertions)
  insert_parts queue (messages ∷ parts) insertions s =
      let others =
        lock_pool prefix queue lock_nack
        ∷ lock_pool prefix queue lock_ack
        ∷ processing_pool prefix queue
        ∷ [] in
      let pairs = map (λ m. (m.score, m.id)) messages in
      let run = r.run (λ t. done (add_elements r (active_pool prefix queue) others pairs t)) s in
      elim run.1 [
        | ok inserts ↦ insert_parts queue parts (insertions ++ inserts) run.0
        | err e ↦ (run.0, err (inserting_cache e))
        | panic ↦ (run.0, panic)
      ]

  unfoldable pub insert_redis :
      {P : Type 0} → r.State → Str → List (Message P) → r.State × Result (List Str)
  unfolding is_valid_queue_name partition insert_parts exists
  insert_redis s queue messages = for_valid queue s (
      if exists (λ m. not (is_yes (Str_discrete m.queue queue))) messages
      then (s, err invalid_queue_to_insert_data)
      else insert_parts queue (partition (length messages) 2000 messages) [] s)

  abbrev pub is_member : Option Score → Bool
  is_member none = false
  is_member (some score) = true

  unfoldable pub contains_element : Str → Str → r.State → r.State × Result Bool
  contains_element pool id s =
      wrapped checking_processing (r.run (λ t. (t, ok (is_member (r.zscore pool id t)))) s)

  unfoldable pub is_processing_redis : r.State → Str → Str → r.State × Result Bool
  unfolding is_valid_queue_name contains_element
  is_processing_redis s queue id =
      for_valid queue s (contains_element (processing_pool prefix queue) id s)

  -- A missing key reads as the empty string.
  unfoldable pub get_redis : r.State → Str → r.State × Result Str
  get_redis s key = wrapped getting_cache_element (
      r.run
        (λ t. (
          t,
          ok (elim (r.get_key (general_cache_key prefix key) t) as (λ o. Str) [
            | none ↦ []
            | some value ↦ value
          ]),
        ))
        s)

  unfoldable pub set_redis : r.State → Str → Str → r.State × Result (Unit {0})
  set_redis s key value =
      wrapped setting_cache_element
        (r.run (λ t. (r.set_key (general_cache_key prefix key) value t, ok tt)) s)
