-- ===== src/Housekeeper/Expiry.antt =====
-- `RemoveTTLMessages` of internal/queue/queue_housekeeper.go.
use deckard.Common.{
  ℕ, suc, Bool, true, false, Option, none, some, List, [], ◌∷◌, ◌++◌, if◌then◌else◌, Str, codes,
}
use deckard.Common.Int.{pos}
use deckard.Common.Maps.{Map, lookup, insert}
use deckard.Outcome.{Result, ok, err, panic}
use deckard.Dtime.{Readings, Time}
use deckard.Message.{Message}
use deckard.Storage.{FindOptions}
use deckard.Interfaces.{Cache, Storage}
use deckard.Queue.{Queue, remove_messages}
use deckard.Housekeeper.{is_recovering}

-- The first 10000 messages that expire until the date.
abbrev pub expired_options : Option Time → FindOptions
expired_options filter_date = record {
  sort = some ((codes "expiry_date", pos 1) ∷ []);
  limit = pos 10000;
  internal_filter = some (record {
    internal_id_breakpoint_gt = [];
    internal_id_breakpoint_lte = [];
    ids = none;
    queue = [];
    queue_prefix = [];
    expiry_date = filter_date;
  });
  retry = false;
}

-- The ids of each queue.
unfoldable pub ids_by_queue : {P : Type 0} → List (Message P) → Map (List Str) → Map (List Str)
ids_by_queue [] groups = groups
ids_by_queue (m ∷ ms) groups =
    let ids : List Str = elim (lookup m.queue groups) [ none ↦ [] | some given ↦ given ] in
    ids_by_queue ms (insert m.queue (ids ++ m.id ∷ []) groups)

module _ {P : Type 0} (cache : Cache P) (storage : Storage P) where
  -- The loop over the queues, until a shutdown; an error ends it.
  unfoldable pub remove_groups :
      (ℕ → Bool)
      → ℕ
      → Queue cache.State storage.State
      → Map (List Str)
      → Queue cache.State storage.State × Result Bool
  remove_groups ongoing i pool [] = (pool, ok true)
  remove_groups ongoing i pool ((queue, ids) ∷ groups) =
      let r = remove_messages cache storage pool queue (codes "TTL") ids in
      let rest = remove_groups ongoing (suc i) r.0 groups in
      if ongoing i
      then (pool, ok true)
      else elim r.1.2 [ err e ↦ (r.0, err e) | panic ↦ (r.0, panic) | ok done ↦ rest ]

  -- `order` is the order in which the runtime gives the queues.
  unfoldable pub remove_ttl_messages :
      (Map (List Str) → Map (List Str))
      → (ℕ → Bool)
      → Readings
      → Queue cache.State storage.State
      → Option Time
      → Queue cache.State storage.State × Result Bool
  unfolding is_recovering ids_by_queue remove_groups
  remove_ttl_messages order ongoing now pool filter_date =
      let running = is_recovering cache storage pool in
      elim running.1 [
        | err e ↦ (running.0, err e)
        | panic ↦ (running.0, panic)
        | ok recovering ↦
            if recovering
            then (running.0, ok false)
            else elim (storage.find now pool.storage (some (expired_options filter_date))) [
              | err e ↦ (running.0, err e)
              | panic ↦ (running.0, panic)
              | ok messages ↦ remove_groups ongoing 0 running.0 (order (ids_by_queue messages []))
            ]
      ]
