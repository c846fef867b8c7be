-- ===== src/Housekeeper/Recovery.antt =====
-- `RecoveryMessagesPool` of internal/queue/queue_housekeeper.go.
use deckard.Common.{
  ℕ, Bool, true, false, not, ◌&&◌, none, some, List, [], ◌∷◌, if◌then◌else◌, Str, Str_discrete,
  is_yes, length, map, codes,
}
use deckard.Common.Int.{pos, negsuc, ltb_ℤ}
use deckard.Common.Maps.{Map}
use deckard.Outcome.{Result, ok, err, panic}
use deckard.Dtime.{Readings}
use deckard.Score.{Score, min_score, max_score}
use deckard.Message.{Message}
use deckard.Storage.{FindOptions}
use deckard.Interfaces.{Cache, Storage}
use deckard.Queue.{Queue, with_cache, add_messages_to_cache_with_audit_reason}
use deckard.Housekeeper.{recovery_running, is_recovering}

abbrev pub recovery_finished : Str
recovery_finished = codes "recovery_finished"

abbrev pub recovery_storage_breakpoint_key : Str
recovery_storage_breakpoint_key = codes "recovery_storage_breakpoint"

abbrev pub recovery_breakpoint_key : Str
recovery_breakpoint_key = codes "recovery_breakpoint"

-- The messages that one call recovers at most.
abbrev pub recovery_limit : ℕ
recovery_limit = 4000

-- The options of the search for the last message, and of the search between two internal ids.
abbrev pub last_options : FindOptions
last_options = record {
  sort = some ((codes "_id", negsuc 0) ∷ []);
  limit = pos 1;
  internal_filter = none;
  retry = false;
}

abbrev pub between_options : Str → Str → FindOptions
between_options gt lte = record {
  sort = some ((codes "_id", pos 1) ∷ []);
  limit = pos recovery_limit;
  internal_filter = some (record {
    internal_id_breakpoint_gt = gt;
    internal_id_breakpoint_lte = lte;
    ids = none;
    queue = [];
    queue_prefix = [];
    expiry_date = none;
  });
  retry = false;
}

unfoldable pub clamped : Score → Score
clamped score =
    if ltb_ℤ score min_score then min_score else if ltb_ℤ max_score score then max_score else score

module _ {P : Type 0} where
  unfoldable pub clamp_score : Message P → Message P
  unfolding clamped
  clamp_score m = record m { score = clamped m.score }

  unfoldable pub last_message : Message P → List (Message P) → Message P
  last_message m [] = m
  last_message m (k ∷ ks) = last_message k ks

module _ {P : Type 0} (cache : Cache P) (storage : Storage P) where
  -- A `Set` whose error is passed over.
  abbrev pub set_key : Str → Str → Queue cache.State storage.State → Queue cache.State storage.State
  set_key key value pool = with_cache (cache.set pool.cache key value).0 pool

  -- From the last message of the storage, if there is one.
  unfoldable pub start_from :
      Queue cache.State storage.State
      → List (Message P)
      → Queue cache.State storage.State × Result Bool
  start_from pool [] = (
    set_key recovery_running (codes "false")
        (set_key recovery_storage_breakpoint_key recovery_finished pool),
    ok false,
  )
  start_from pool (m ∷ ms) =
      (set_key recovery_breakpoint_key (storage.get_string_internal_id m) pool, ok true)

  unfoldable pub try_to_start_recovery :
      Readings → Queue cache.State storage.State → Queue cache.State storage.State × Result Bool
  unfolding start_from
  try_to_start_recovery now pool =
      let r = cache.set pool.cache recovery_running (codes "true") in
      let started = with_cache r.0 pool in
      elim r.1 [
        | err e ↦ (started, ok false)
        | panic ↦ (started, panic)
        | ok done ↦ elim (storage.find now pool.storage (some last_options)) [
          | err e ↦ (started, ok false)
          | panic ↦ (started, panic)
          | ok messages ↦ start_from started messages
        ]
      ]

  -- The last round ends the recovery: fewer messages than the limit are left.
  unfoldable pub finish_recovery :
      ℕ → Queue cache.State storage.State → Queue cache.State storage.State
  finish_recovery n pool =
      if ltb_ℤ (pos n) (pos recovery_limit)
      then set_key recovery_storage_breakpoint_key recovery_finished
          (set_key recovery_running (codes "false") pool)
      else pool

  -- The messages of one round go to the cache, with their scores in bounds.
  unfoldable pub recover_messages :
      (Map (List (Message P)) → Map (List (Message P)))
      → Queue cache.State storage.State
      → List (Message P)
      → Queue cache.State storage.State × Result Bool
  unfolding clamp_score last_message finish_recovery
  recover_messages order pool [] = (finish_recovery 0 pool, ok true)
  recover_messages order pool (m ∷ ms) =
      let r =
        add_messages_to_cache_with_audit_reason cache storage order (codes "recovery") pool
          (map clamp_score (m ∷ ms)) in
      elim r.1 [
        | err e ↦ (r.0, ok true)
        | panic ↦ (r.0, panic)
        | ok count ↦ (
          finish_recovery (length (m ∷ ms)) (
              set_key recovery_storage_breakpoint_key
                (storage.get_string_internal_id (clamp_score (last_message m ms))) r.0),
          ok true,
        )
      ]

  -- From the breakpoint on, with a recovery under way.
  unfoldable pub recover_from :
      (Map (List (Message P)) → Map (List (Message P)))
      → Readings
      → Queue cache.State storage.State
      → Str
      → Queue cache.State storage.State × Result Bool
  unfolding recover_messages
  recover_from order now pool breakpoint =
      let r = cache.get pool.cache recovery_breakpoint_key in
      let read = with_cache r.0 pool in
      elim r.1 [
        | err e ↦ (read, ok true)
        | panic ↦ (read, panic)
        | ok last ↦ elim (storage.find now pool.storage (some (between_options breakpoint last))) [
          | err e ↦ (read, ok true)
          | panic ↦ (read, panic)
          | ok messages ↦ recover_messages order read messages
        ]
      ]

  -- The result `metrify`: false only when the recovery had finished before.
  unfoldable pub recovery_messages_pool :
      (Map (List (Message P)) → Map (List (Message P)))
      → Readings
      → Readings
      → Queue cache.State storage.State
      → Queue cache.State storage.State × Result Bool
  unfolding is_recovering try_to_start_recovery recover_from
  recovery_messages_pool order started_at found_at pool =
      let r = cache.get pool.cache recovery_storage_breakpoint_key in
      let read = with_cache r.0 pool in
      let running = is_recovering cache storage read in
      let start = try_to_start_recovery started_at running.0 in
      elim r.1 [
        | err e ↦ (read, ok true)
        | panic ↦ (read, panic)
        | ok breakpoint ↦
            if is_yes (Str_discrete breakpoint recovery_finished)
            then (read, ok false)
            else elim running.1 [
              | err e ↦ (running.0, ok true)
              | panic ↦ (running.0, panic)
              | ok recovering ↦
                  if is_yes (Str_discrete breakpoint []) && not recovering
                  then elim start.1 [
                    | err e ↦ (start.0, err e)
                    | panic ↦ (start.0, panic)
                    | ok has_started ↦
                        if has_started
                        then recover_from order found_at start.0 breakpoint
                        else (start.0, ok true)
                  ]
                  else recover_from order found_at running.0 breakpoint
            ]
      ]
