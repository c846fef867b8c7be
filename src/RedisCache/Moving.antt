-- ===== src/RedisCache/Moving.antt =====
-- What the scripts that move elements do to the pools.
use deckard.Common.{
  ◌+◌, ◌≤◌, ◌≡◌, refl, true, false, ◌&&◌, some, List, [], ◌∷◌, if◌then◌else◌, Str, Str_discrete,
  is_yes, exists, arith, length, ◌<◌, inl, inr, Option-cases, ltb,
}
use deckard.Score.{Score}
use deckard.MemoryCache.{LockType, lock_ack, lock_nack}
use deckard.Redis.{Redis, RedisLaws, present, among_ids}
use deckard.RedisCache.Naming.{Slot, active, processing, locked, locked_score, key, rank, same_slot}
use deckard.RedisCache.Places.{
  Valid, at, places, share, at-zadd, at-zrem, places-zadd, places-zrem, zrem_at, places-change,
}
use deckard.RedisCache.Scripts.{move_element, lock_element, add_each, move_all, unpack_limit}

module _ (r : Redis) (laws : RedisLaws r) (prefix : Str) where
  -- Two different pools.
  pub record Apart (a b : Slot) : Type 0 where
    pub differ : same_slot a b ≡ false
    pub pool_a : ltb (rank a) 4 ≡ true
    pub pool_b : ltb (rank b) 4 ≡ true
    pub shares :
        (s : r.State) (k id : Str)
        → present (at r laws prefix s k a id) + present (at r laws prefix s k b id)
          ≤ places r laws prefix s k id

  pub active_processing : Apart active processing
  unfolding places
  active_processing = record {
    differ = refl;
    pool_a = refl;
    pool_b = refl;
    shares = λ s k id. omega arith;
  }

  pub processing_active : Apart processing active
  unfolding places
  processing_active = record {
    differ = refl;
    pool_a = refl;
    pool_b = refl;
    shares = λ s k id. omega arith;
  }

  pub active_locked : (t : LockType) → Apart active (locked t)
  unfolding places
  active_locked lock_ack = record {
    differ = refl;
    pool_a = refl;
    pool_b = refl;
    shares = λ s k id. omega arith;
  }
  active_locked lock_nack = record {
    differ = refl;
    pool_a = refl;
    pool_b = refl;
    shares = λ s k id. omega arith;
  }

  pub locked_processing : (t : LockType) → Apart (locked t) processing
  unfolding places
  locked_processing lock_ack = record {
    differ = refl;
    pool_a = refl;
    pool_b = refl;
    shares = λ s k id. omega arith;
  }
  locked_processing lock_nack = record {
    differ = refl;
    pool_a = refl;
    pool_b = refl;
    shares = λ s k id. omega arith;
  }

  -- The element leaves the source and enters the destination.
  places-zrem-zadd :
      (a b : Slot) (q k i id : Str) (score : Score) (x : Score) (s : r.State)
      → Apart a b
      → Valid q
      → Valid k
      → places r laws prefix s k id ≤ 1
      → at r laws prefix s q b i ≡ some x
      → places r laws prefix
          (r.zadd (key prefix q a) ((score, i) ∷ []) (r.zrem (key prefix q b) (i ∷ []) s).0).0
          k
          id
        ≡ places r laws prefix s k id
  unfolding exists
  places-zrem-zadd a b q k i id score x s ab v w h e =
      let u = (r.zrem (key prefix q b) (i ∷ []) s).0 in
      ground (
        arith,
        h,
        e,
        ab.differ,
        ab.pool_a,
        ab.pool_b,
        ab.shares s k id,
        places-zrem r laws prefix q k b (i ∷ []) id s v w,
        places-zadd r laws prefix q k a ((score, i) ∷ []) id u v w,
        at-zrem r laws prefix q k b a (i ∷ []) id s v w,
      )

  pub places-move_element :
      (a b : Slot) (q k i id : Str) (score : Score) (s : r.State)
      → Apart a b
      → Valid q
      → Valid k
      → places r laws prefix s k id ≤ 1
      → places r laws prefix (move_element r (key prefix q a) (key prefix q b) score i s).0 k id
        ≡ places r laws prefix s k id
  unfolding move_element exists
  places-move_element a b q k i id score s ab v w h =
      elim (Option-cases (at r laws prefix s q b i)) [
        | inl e ↦
            rw (zrem_at r laws prefix q i b s, e, move_element)
              (ground (arith, e, places-zrem r laws prefix q k b (i ∷ []) id s v w))
        | inr (x, e) ↦
            rw (zrem_at r laws prefix q i b s, e, move_element)
              (places-zrem-zadd a b q k i id score x s ab v w h e)
      ]

  -- The script says whether the element was in the source.
  pub moved-move_element :
      (a b : Slot) (q i : Str) (score : Score) (s : r.State)
      → Apart a b
      → Valid q
      → places r laws prefix s q i ≤ 1
      → (move_element r (key prefix q a) (key prefix q b) score i s).1
        ≡ present (at r laws prefix s q b i)
  unfolding move_element exists at
  moved-move_element a b q i score s ab v h = elim (Option-cases (at r laws prefix s q b i)) [
    | inl e ↦ rw (zrem_at r laws prefix q i b s, e, move_element) refl
    | inr (x, e) ↦
        rw (zrem_at r laws prefix q i b s, e, move_element)
          (ground (
            arith,
            h,
            e,
            ab.differ,
            ab.shares s q i,
            laws.zadd_one (key prefix q a) score i (r.zrem (key prefix q b) (i ∷ []) s).0,
            at-zrem r laws prefix q q b a (i ∷ []) i s v v,
          ))
  ]

  -- A score that is kept counts in no pool.
  places-kept :
      (t : LockType) (q k id : Str) (pairs : List (Score × Str)) (s : r.State)
      → Valid q
      → Valid k
      → places r laws prefix (r.zadd (key prefix q (locked_score t)) pairs s).0 k id
        ≡ places r laws prefix s k id
  places-kept lock_ack q k id pairs s v w =
      ground (arith, places-zadd r laws prefix q k (locked_score lock_ack) pairs id s v w)
  places-kept lock_nack q k id pairs s v w =
      ground (arith, places-zadd r laws prefix q k (locked_score lock_nack) pairs id s v w)

  pub places-lock_element :
      (t : LockType) (q k i id : Str) (score kept : Score) (s : r.State)
      → Valid q
      → Valid k
      → places r laws prefix s k id ≤ 1
      → places r laws prefix
          (lock_element r
            (key prefix q processing)
            (key prefix q (locked t))
            (key prefix q (locked_score t))
            score
            i
            kept
            s).0
          k
          id
        ≡ places r laws prefix s k id
  unfolding lock_element exists
  places-lock_element t q k i id score kept s v w h =
      elim (Option-cases (at r laws prefix s q processing i)) [
        | inl e ↦
            rw (zrem_at r laws prefix q i processing s, e, lock_element)
              (ground (arith, e, places-zrem r laws prefix q k processing (i ∷ []) id s v w))
        | inr (x, e) ↦
            let u = (r.zrem (key prefix q processing) (i ∷ []) s).0 in
            let l = (r.zadd (key prefix q (locked t)) ((score, i) ∷ []) u).0 in
            rw (zrem_at r laws prefix q i processing s, e, lock_element)
              (ground (
                arith,
                places-kept t q k id ((kept, i) ∷ []) l v w,
                places-zrem-zadd (locked t) processing q k i id score x s (locked_processing t) v w
                    h e,
              ))
      ]

  at-add_each :
      (q k : Str) (a b : Slot) (score : Score) (ids : List Str) (id : Str) (s : r.State)
      → Valid q
      → Valid k
      → at r laws prefix (add_each r (key prefix q a) score ids s) k b id ≡ (
          if (is_yes (Str_discrete q k) && same_slot a b) && among_ids id ids
          then some score
          else at r laws prefix s k b id)
  unfolding add_each exists
  at-add_each q k a b score [] id s v w = ground arith
  at-add_each q k a b score (i ∷ ids) id s v w = ground (
    arith,
    at-add_each q k a b score ids id (r.zadd (key prefix q a) ((score, i) ∷ []) s).0 v w,
    at-zadd r laws prefix q k a b ((score, i) ∷ []) id s v w,
  )

  places-add_each :
      (q k : Str) (a : Slot) (score : Score) (ids : List Str) (id : Str) (s : r.State)
      → Valid q
      → Valid k
      → places r laws prefix (add_each r (key prefix q a) score ids s) k id
          + (if is_yes (Str_discrete q k) && among_ids id ids
              then share r laws prefix a (at r laws prefix s k a id)
              else 0)
        ≡ places r laws prefix s k id
          + (if is_yes (Str_discrete q k) && among_ids id ids
              then share r laws prefix a (some score)
              else 0)
  places-add_each q k a score ids id s v w = ground (
    arith,
    places-change r laws prefix (is_yes (Str_discrete q k) && among_ids id ids) k a
        (λ b. some score) id s (add_each r (key prefix q a) score ids s)
        (λ b. ground (arith, at-add_each q k a b score ids id s v w)),
  )

  -- Every element that is moved is a member of the source.
  abbrev pub Members : r.State → Str → Slot → List Str → Type 0
  Members s q b ids =
      (id : Str) → among_ids id ids ≡ true → (x : Score) × (at r laws prefix s q b id ≡ some x)

  pub places-move_all :
      (a b : Slot) (q k id : Str) (score : Score) (ids : List Str) (s : r.State)
      → Apart a b
      → Valid q
      → Valid k
      → Members s q b ids
      → length ids < unpack_limit
      → places r laws prefix s k id ≤ 1
      → places r laws prefix (move_all r (key prefix q a) (key prefix q b) score ids s).0 k id
        ≡ places r laws prefix s k id
  unfolding move_all
  places-move_all a b q k id score [] s ab v w m l h = refl
  places-move_all a b q k id score (i ∷ ids) s ab v w m l h =
      let u = add_each r (key prefix q a) score (i ∷ ids) s in
      ground (
        arith,
        l,
        h,
        ab.differ,
        ab.pool_a,
        ab.pool_b,
        ab.shares s k id,
        m id,
        places-add_each q k a score (i ∷ ids) id s v w,
        places-zrem r laws prefix q k b (i ∷ ids) id u v w,
        at-add_each q k a b score (i ∷ ids) id s v w,
      )
