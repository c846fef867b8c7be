-- ===== src/RedisCache/Places.antt =====
-- In which sorted sets of a queue an id stands, and what the scripts do to it.
use deckard.Common.{
  ℕ, ◌+◌, ◌≤◌, ◌≡◌, ap, ◌∙◌, Bool, true, ◌&&◌, Option, none, List, [], ◌∷◌, if◌then◌else◌, Str,
  Str_discrete, is_yes, arith,
}
use deckard.Score.{Score}
use deckard.MemoryCache.{lock_ack, lock_nack}
use deckard.Redis.{Redis, RedisLaws, overridden, present, among_ids}
use deckard.RedisCache.Keys.{is_valid_queue_name}
use deckard.RedisCache.Naming.{
  Slot, active, processing, locked, locked_score, key, rank, same_slot, test-key,
}
use deckard.Common.{ltb}

abbrev pub Valid : Str → Type 0
Valid q = is_valid_queue_name q ≡ true

module _ (r : Redis) (laws : RedisLaws r) (prefix : Str) where
  -- The score that an id has in a sorted set of a queue.
  unfoldable pub at : r.State → Str → Slot → Str → Option Score
  at s q a id = r.zscore (key prefix q a) id s

  -- How many of the four pools have the id.
  unfoldable pub places : r.State → Str → Str → ℕ
  places s q id =
      present (at s q active id)
      + present (at s q processing id)
      + present (at s q (locked lock_ack) id)
      + present (at s q (locked lock_nack) id)

  abbrev pub OnePlace : r.State → Type 0
  OnePlace s = (q id : Str) → Valid q → places s q id ≤ 1

  pub at-zadd :
      (q k : Str) (a b : Slot) (pairs : List (Score × Str)) (id : Str) (s : r.State)
      → Valid q
      → Valid k
      → at (r.zadd (key prefix q a) pairs s).0 k b id ≡ (
          if is_yes (Str_discrete q k) && same_slot a b
          then overridden pairs id (at s k b id)
          else at s k b id)
  unfolding at
  at-zadd q k a b pairs id s v w =
      laws.zscore_zadd (key prefix q a) (key prefix k b) pairs id s
      ∙ ap
          (λ t.
            if t
            then overridden pairs id (r.zscore (key prefix k b) id s)
            else r.zscore (key prefix k b) id s)
          (test-key prefix q k a b v w)

  pub at-zrem :
      (q k : Str) (a b : Slot) (ids : List Str) (id : Str) (s : r.State)
      → Valid q
      → Valid k
      → at (r.zrem (key prefix q a) ids s).0 k b id ≡ (
          if (is_yes (Str_discrete q k) && same_slot a b) && among_ids id ids
          then none
          else at s k b id)
  unfolding at
  at-zrem q k a b ids id s v w =
      laws.zscore_zrem (key prefix q a) (key prefix k b) ids id s
      ∙ ap (λ t. if t && among_ids id ids then none else r.zscore (key prefix k b) id s)
          (test-key prefix q k a b v w)

  pub zrem_at :
      (q i : Str) (a : Slot) (s : r.State)
      → (r.zrem (key prefix q a) (i ∷ []) s).1 ≡ present (at s q a i)
  unfolding at
  zrem_at q i a s = laws.zrem_one (key prefix q a) i s

  -- What a sorted set counts, if it is that of a pool.
  abbrev pub share : Slot → Option Score → ℕ
  share a o = if ltb (rank a) 4 then present o else 0

  -- A change of one sorted set of a queue, under a condition.
  pub places-change :
      (c : Bool) (k : Str) (a : Slot) (new : Slot → Option Score) (id : Str) (s t : r.State)
      → ((b : Slot) → at t k b id ≡ (if c && same_slot a b then new b else at s k b id))
      → places t k id + (if c then share a (at s k a id) else 0)
        ≡ places s k id + (if c then share a (new a) else 0)
  unfolding places
  places-change c k active new id s t h =
      ground (arith, h active, h processing, h (locked lock_ack), h (locked lock_nack))
  places-change c k processing new id s t h =
      ground (arith, h active, h processing, h (locked lock_ack), h (locked lock_nack))
  places-change c k (locked lock_ack) new id s t h =
      ground (arith, h active, h processing, h (locked lock_ack), h (locked lock_nack))
  places-change c k (locked lock_nack) new id s t h =
      ground (arith, h active, h processing, h (locked lock_ack), h (locked lock_nack))
  places-change c k (locked_score lock_ack) new id s t h =
      ground (arith, h active, h processing, h (locked lock_ack), h (locked lock_nack))
  places-change c k (locked_score lock_nack) new id s t h =
      ground (arith, h active, h processing, h (locked lock_ack), h (locked lock_nack))

  pub places-zrem :
      (q k : Str) (a : Slot) (ids : List Str) (id : Str) (s : r.State)
      → Valid q
      → Valid k
      → places (r.zrem (key prefix q a) ids s).0 k id
          + (if is_yes (Str_discrete q k) && among_ids id ids then share a (at s k a id) else 0)
        ≡ places s k id
  places-zrem q k a ids id s v w = ground (
    arith,
    places-change (is_yes (Str_discrete q k) && among_ids id ids) k a (λ b. none) id s
        (r.zrem (key prefix q a) ids s).0 (λ b. ground (arith, at-zrem q k a b ids id s v w)),
  )

  pub places-zadd :
      (q k : Str) (a : Slot) (pairs : List (Score × Str)) (id : Str) (s : r.State)
      → Valid q
      → Valid k
      → places (r.zadd (key prefix q a) pairs s).0 k id
          + (if is_yes (Str_discrete q k) then share a (at s k a id) else 0)
        ≡ places s k id
          + (if is_yes (Str_discrete q k) then share a (overridden pairs id (at s k a id)) else 0)
  places-zadd q k a pairs id s v w =
      places-change (is_yes (Str_discrete q k)) k a (λ b. overridden pairs id (at s k b id)) id s
        (r.zadd (key prefix q a) pairs s).0 (λ b. at-zadd q k a b pairs id s v w)
