-- ===== src/RedisCache/Flushing.antt =====
-- What `Flush` leaves in the sorted sets.
use deckard.Common.{Bool, List, [], ◌∷◌, ◌++◌, Str, arith, inl, inr, length, codes, Bool-cases}
use deckard.Outcome.{ok, Error, Result-cases}
use deckard.MemoryCache.{lock_ack, lock_nack}
use deckard.Redis.{Redis, RedisLaws}
use deckard.RedisCache.{partition}
use deckard.RedisCache.Keys.{configured_prefix}
use deckard.RedisCache.Lists.{
  scan_keys, uniq_strings, delete_each, delete_parts, delete_by_pattern, flush_redis,
}
use deckard.RedisCache.Naming.{active, processing, locked, key}
use deckard.RedisCache.Places.{at, places, OnePlace}
use deckard.RedisCache.Operations.{run-keeps}

module _ (r : Redis) (laws : RedisLaws r) (prefix : Str) where
  del-OnePlace :
      (keys : List Str) (s : r.State)
      → OnePlace r laws prefix s
      → OnePlace r laws prefix (r.del keys s)
  unfolding places at
  del-OnePlace keys s h q id v = ground (
    arith,
    h q id v,
    laws.zscore_del keys (key prefix q active) id s,
    laws.zscore_del keys (key prefix q processing) id s,
    laws.zscore_del keys (key prefix q (locked lock_ack)) id s,
    laws.zscore_del keys (key prefix q (locked lock_nack)) id s,
  )

  run-del-OnePlace :
      (keys : List Str) (s : r.State)
      → OnePlace r laws prefix s
      → OnePlace r laws prefix (r.run (λ t. (r.del keys t, ok tt)) s).0
  run-del-OnePlace keys s h =
      run-keeps r laws prefix (OnePlace r laws prefix) (λ t. (r.del keys t, ok tt)) s h
        (λ t g. del-OnePlace keys t g)

  delete_each-OnePlace :
      (keys : List Str) (s : r.State)
      → OnePlace r laws prefix s
      → OnePlace r laws prefix (delete_each r prefix keys s).0
  unfolding delete_each
  delete_each-OnePlace [] s h = h
  delete_each-OnePlace (k ∷ keys) s h =
      let run = r.run (λ t. (r.del (k ∷ []) t, ok tt)) s in
      let g = run-del-OnePlace (k ∷ []) s h in
      elim (Result-cases run.1) [
        | inl (d, e) ↦ rw (e, delete_each) (delete_each-OnePlace keys run.0 g)
        | inr (inl (x, e)) ↦ rw (e, delete_each) g
        | inr (inr e) ↦ rw (e, delete_each) g
      ]

  delete_parts-OnePlace :
      (crosses_slot : Error → Bool) (parts : List (List Str)) (s : r.State)
      → OnePlace r laws prefix s
      → OnePlace r laws prefix (delete_parts r prefix crosses_slot parts s).0
  unfolding delete_parts
  delete_parts-OnePlace crosses_slot [] s h = h
  delete_parts-OnePlace crosses_slot (keys ∷ parts) s h =
      let run = r.run (λ t. (r.del keys t, ok tt)) s in
      let each = delete_each r prefix keys run.0 in
      let g = run-del-OnePlace keys s h in
      let k = delete_each-OnePlace keys run.0 g in
      elim (Result-cases run.1) [
        | inl (d, e) ↦ rw (e, delete_parts) (delete_parts-OnePlace crosses_slot parts run.0 g)
        | inr (inl (x, e)) ↦ elim (Bool-cases (crosses_slot x)) [
          | inr f ↦ rw (e, f, delete_parts) g
          | inl f ↦ elim (Result-cases each.1) [
            | inl (d, n) ↦
                rw (e, f, n, delete_parts) (delete_parts-OnePlace crosses_slot parts each.0 k)
            | inr (inl (y, n)) ↦ rw (e, f, n, delete_parts) k
            | inr (inr n) ↦ rw (e, f, n, delete_parts) k
          ]
        ]
        | inr (inr e) ↦ rw (e, delete_parts) g
      ]

  pub flush_redis-OnePlace :
      (crosses_slot : Error → Bool) (s : r.State)
      → OnePlace r laws prefix s
      → OnePlace r laws prefix (flush_redis r prefix crosses_slot s)
  unfolding flush_redis delete_by_pattern
  flush_redis-OnePlace crosses_slot s h =
      elim (Result-cases (scan_keys (r.scan (configured_prefix prefix ++ codes ":*") s))) [
        | inl (keys, e) ↦
            let unique = uniq_strings keys in
            rw (e, flush_redis, delete_by_pattern)
              (delete_parts-OnePlace crosses_slot (partition (length unique) 1000 unique) s h)
        | inr (inl (x, e)) ↦ rw (e, flush_redis, delete_by_pattern) h
        | inr (inr e) ↦ rw (e, flush_redis, delete_by_pattern) h
      ]
