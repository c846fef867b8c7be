-- ===== src/RedisCache/Lists.antt =====
-- `ListQueues` and `Flush` of internal/queue/cache/redis_cache.go, which scan keys.
use deckard.Common.{
  Bool, true, false, not, ◌||◌, Option, none, some, List, [], ◌∷◌, ◌++◌, Str, exists, keep, map,
  length, codes,
}
use deckard.Outcome.{Error, Result, ok, err, panic, listing_cache_queues}
use deckard.Message.{PoolType, primary_pool, processing_pool, lock_ack_pool, lock_nack_pool}
use deckard.MemoryCache.{lock_ack, lock_nack}
use deckard.Redis.{Redis, among_ids}
use deckard.RedisCache.{partition}
use deckard.RedisCache.Keys.{
  active_pool, lock_pool, configured_prefix, parse_queue_key, has_suffix, processing_pool_suffix,
  lock_suffix, score_suffix,
}
use deckard.RedisCache.Keys as Keys

-- The replies to `SCAN` put together; the first error ends the loop.
unfoldable pub scan_keys : List (Result (List Str)) → Result (List Str)
scan_keys [] = ok []
scan_keys (ok batch ∷ batches) = elim (scan_keys batches) [
  | ok keys ↦ ok (batch ++ keys)
  | err e ↦ err e
  | panic ↦ panic
]
scan_keys (err e ∷ batches) = err e
scan_keys (panic ∷ batches) = panic

-- The first of each text, where `seen` has been met before.
unfoldable pub uniq_from : List Str → List Str → List Str
unfolding exists
uniq_from seen [] = []
uniq_from seen (v ∷ values) = elim (among_ids v seen) [
  | true ↦ uniq_from seen values
  | false ↦ v ∷ uniq_from (v ∷ seen) values
]

unfoldable pub uniq_strings : List Str → List Str
unfolding uniq_from
uniq_strings values = uniq_from [] values

-- One of the suffixes that a queue's other keys have.
unfoldable pub has_pool_suffix : Str → Bool
unfolding has_suffix
has_pool_suffix queue =
    has_suffix processing_pool_suffix queue
    || (has_suffix (lock_suffix lock_ack) queue
        || (has_suffix (lock_suffix lock_nack) queue
            || (has_suffix (lock_suffix lock_nack ++ score_suffix) queue
                || has_suffix (lock_suffix lock_ack ++ score_suffix) queue)))

unfoldable pub filter_queue_suffix : List Str → List Str
unfolding has_pool_suffix keep
filter_queue_suffix queues = keep (λ queue. not (has_pool_suffix queue)) queues

unfoldable pub search_pattern : Str → Str → PoolType → Str
unfolding active_pool Keys.processing_pool lock_pool
search_pattern prefix pattern primary_pool = active_pool prefix pattern
search_pattern prefix pattern processing_pool = Keys.processing_pool prefix pattern
search_pattern prefix pattern lock_ack_pool = lock_pool prefix pattern lock_ack
search_pattern prefix pattern lock_nack_pool = lock_pool prefix pattern lock_nack

abbrev pub suffix_regex : PoolType → Option Str
suffix_regex primary_pool = none
suffix_regex processing_pool = some processing_pool_suffix
suffix_regex lock_ack_pool = some (lock_suffix lock_ack)
suffix_regex lock_nack_pool = some (lock_suffix lock_nack)

-- The queues of the scanned keys.
unfoldable pub queues_of_keys : Str → PoolType → List Str → List Str
unfolding parse_queue_key uniq_strings filter_queue_suffix
queues_of_keys prefix pool_type keys =
    let queues = uniq_strings (map (parse_queue_key prefix (suffix_regex pool_type)) keys) in
    elim pool_type [
      | primary_pool ↦ filter_queue_suffix queues
      | processing_pool ↦ queues
      | lock_ack_pool ↦ queues
      | lock_nack_pool ↦ queues
    ]

module _ (r : Redis) (prefix : Str) where
  unfoldable pub list_queues_redis : r.State → Str → PoolType → r.State × Result (List Str)
  unfolding search_pattern scan_keys queues_of_keys
  list_queues_redis s pattern pool_type =
      elim (scan_keys (r.scan (search_pattern prefix pattern pool_type) s)) [
        | ok keys ↦ (s, ok (queues_of_keys prefix pool_type keys))
        | err e ↦ (s, err (listing_cache_queues e))
        | panic ↦ (s, panic)
      ]

  -- One key after the other, until an error.
  unfoldable pub delete_each : List Str → r.State → r.State × Result (Unit {0})
  delete_each [] s = (s, ok tt)
  delete_each (key ∷ keys) s =
      let run = r.run (λ t. (r.del (key ∷ []) t, ok tt)) s in
      elim run.1 [
        | ok done ↦ delete_each keys run.0
        | err e ↦ (run.0, err e)
        | panic ↦ (run.0, panic)
      ]

  -- The parts of the keys; `crosses_slot` is the test for CROSSSLOT in an error's text.
  unfoldable pub delete_parts :
      (Error → Bool) → List (List Str) → r.State → r.State × Result (Unit {0})
  unfolding delete_each
  delete_parts crosses_slot [] s = (s, ok tt)
  delete_parts crosses_slot (keys ∷ parts) s =
      let run = r.run (λ t. (r.del keys t, ok tt)) s in
      let each = delete_each keys run.0 in
      elim run.1 [
        | ok done ↦ delete_parts crosses_slot parts run.0
        | panic ↦ (run.0, panic)
        | err e ↦ elim (crosses_slot e) [
          | false ↦ (run.0, err e)
          | true ↦ elim each.1 [
            | ok done ↦ delete_parts crosses_slot parts each.0
            | err f ↦ (each.0, err f)
            | panic ↦ (each.0, panic)
          ]
        ]
      ]

  unfoldable pub delete_by_pattern : (Error → Bool) → Str → r.State → r.State × Result (Unit {0})
  unfolding scan_keys uniq_strings partition delete_parts
  delete_by_pattern crosses_slot pattern s = elim (scan_keys (r.scan pattern s)) [
    | ok keys ↦
        let unique = uniq_strings keys in
        delete_parts crosses_slot (partition (length unique) 1000 unique) s
    | err e ↦ (s, err e)
    | panic ↦ (s, panic)
  ]

  -- An error is logged only.
  unfoldable pub flush_redis : (Error → Bool) → r.State → r.State
  unfolding configured_prefix delete_by_pattern
  flush_redis crosses_slot s =
      (delete_by_pattern crosses_slot (configured_prefix prefix ++ codes ":*") s).0
