-- ===== src/Housekeeper/Exceeding.antt =====
-- `RemoveExceedingMessages` of internal/queue/queue_housekeeper.go.
use deckard.Common.{
  ◌-◌, ℕ, suc, Bool, true, false, ◌||◌, none, some, List, [], ◌∷◌, if◌then◌else◌, Str, Str_discrete,
  is_yes, map, codes,
}
use deckard.Common.Int.{pos, leb_ℤ}
use deckard.Outcome.{Result, ok, err, panic}
use deckard.Dtime.{Readings}
use deckard.Storage.{InternalFilter, FindOptions, QueueConfiguration}
use deckard.MemoryStorage.Query.{natural}
use deckard.Interfaces.{Cache, Storage}
use deckard.Queue.{Queue, remove_messages}
use deckard.Housekeeper.{is_recovering}

abbrev pub of_queue : Str → InternalFilter
of_queue queue = record {
  internal_id_breakpoint_gt = [];
  internal_id_breakpoint_lte = [];
  ids = none;
  queue = queue;
  queue_prefix = [];
  expiry_date = none;
}

abbrev pub all_of : Str → FindOptions
all_of queue = record {
  sort = none;
  limit = pos 0;
  internal_filter = some (of_queue queue);
  retry = false;
}

-- The messages of the queue that expire first.
abbrev pub first_to_expire : Str → ℕ → FindOptions
first_to_expire queue n = record {
  sort = some ((codes "expiry_date", pos 1) ∷ []);
  limit = pos n;
  internal_filter = some (of_queue queue);
  retry = false;
}

module _ {P : Type 0} (cache : Cache P) (storage : Storage P) where
  -- With the total of the queue at hand, which is more than the maximum.
  unfoldable pub remove_first :
      Readings
      → Queue cache.State storage.State
      → Str
      → ℕ
      → Queue cache.State storage.State × Result (Unit {0})
  remove_first now pool queue diff =
      elim (storage.find now pool.storage (some (first_to_expire queue diff))) [
        | err e ↦ (pool, err e)
        | panic ↦ (pool, panic)
        | ok messages ↦
            let r =
              remove_messages cache storage pool queue (codes "MAX_ELEMENTS")
                (map (λ m. m.id) messages) in
            (r.0, r.1.2)
      ]

  unfoldable pub remove_exceeding_messages_from_queue :
      Readings
      → Queue cache.State storage.State
      → QueueConfiguration
      → Queue cache.State storage.State × Result (Unit {0})
  unfolding remove_first
  remove_exceeding_messages_from_queue now pool configuration =
      let queue = configuration.queue in
      if leb_ℤ configuration.max_elements (pos 0) || is_yes (Str_discrete queue [])
      then (pool, ok tt)
      else elim (storage.count_storage pool.storage (some (all_of queue))) [
        | err e ↦ (pool, err e)
        | panic ↦ (pool, panic)
        | ok total ↦
            if leb_ℤ (pos total) configuration.max_elements
            then (pool, ok tt)
            else remove_first now pool queue (total - natural configuration.max_elements)
      ]

  -- The loop over the configurations, until a shutdown: an error of one queue is passed over.
  unfoldable pub remove_exceeding :
      (ℕ → Bool)
      → (ℕ → Readings)
      → ℕ
      → Queue cache.State storage.State
      → List QueueConfiguration
      → Queue cache.State storage.State × Result Bool
  unfolding remove_exceeding_messages_from_queue
  remove_exceeding ongoing clock i pool [] = (pool, ok true)
  remove_exceeding ongoing clock i pool (configuration ∷ configurations) =
      let r = remove_exceeding_messages_from_queue (clock i) pool configuration in
      let rest = remove_exceeding ongoing clock (suc i) r.0 configurations in
      if ongoing i
      then (pool, ok true)
      else elim r.1 [ ok done ↦ rest | err e ↦ rest | panic ↦ (r.0, panic) ]

  unfoldable pub remove_exceeding_messages :
      (ℕ → Bool)
      → (ℕ → Readings)
      → Queue cache.State storage.State
      → Queue cache.State storage.State × Result Bool
  unfolding is_recovering remove_exceeding
  remove_exceeding_messages ongoing clock pool =
      let running = is_recovering cache storage pool in
      elim running.1 [
        | err e ↦ (running.0, err e)
        | panic ↦ (running.0, panic)
        | ok recovering ↦
            if recovering
            then (running.0, ok false)
            else elim (storage.list_queue_configurations pool.storage) [
              | err e ↦ (running.0, ok true)
              | panic ↦ (running.0, panic)
              | ok configurations ↦ remove_exceeding ongoing clock 0 running.0 configurations
            ]
      ]
