-- ===== src/RedisCache/Entering.antt =====
-- What unlocking, insertion and removal do to the pools.
use deckard.Common.{
  ◌==◌, ◌+◌, ◌≤◌, ◌≡◌, refl, ap, Bool, false, not, ◌&&◌, Option, none, some, List, [], ◌∷◌,
  if◌then◌else◌, Str, Str_discrete, is_yes, exists, keep, map, arith, ltb,
}
use deckard.Score.{Score}
use deckard.MemoryCache.{LockType, lock_ack, lock_nack}
use deckard.Redis.{Redis, RedisLaws, overridden, present, among_ids}
use deckard.RedisCache.Naming.{
  Slot, active, processing, locked, locked_score, key, rank, same_slot, slots,
}
use deckard.RedisCache.Places.{Valid, at, places, at-zadd, at-zrem, places-zadd, places-zrem}
use deckard.RedisCache.Moving.{Members, active_locked, active_processing}
use deckard.RedisCache.Scripts.{
  unlock_all, bulk_data, add_all, add_elements, in_some_pool, remove_elements,
}

-- The pairs name an id.
abbrev pub paired : Str → List (Score × Str) → Bool
paired id pairs = exists (λ e. is_yes (Str_discrete e.1 id)) pairs

present-overridden :
    (pairs : List (Score × Str)) (id : Str) (old : Option Score)
    → present (overridden pairs id old) ≡ (if paired id pairs then 1 else present old)
unfolding exists
present-overridden [] id old = refl
present-overridden ((score, i) ∷ pairs) id old =
    ground
      (arith, present-overridden pairs id (if is_yes (Str_discrete i id) then some score else old))

no_share : (t : LockType) → ltb (rank (locked_score t)) 4 ≡ false
no_share lock_ack = refl
no_share lock_nack = refl

module _ (r : Redis) (laws : RedisLaws r) (prefix : Str) where
  paired-bulk_data :
      (lock_score : Str) (score : Score) (ids : List Str) (id : Str) (s : r.State)
      → paired id (bulk_data r lock_score score ids s) ≡ among_ids id ids
  unfolding bulk_data exists
  paired-bulk_data lock_score score [] id s = refl
  paired-bulk_data lock_score score (i ∷ ids) id s =
      ground (arith, paired-bulk_data lock_score score ids id s)

  pub places-unlock_all :
      (t : LockType) (q k id : Str) (score : Score) (ids : List Str) (s : r.State)
      → Valid q
      → Valid k
      → Members r laws prefix s q (locked t) ids
      → places r laws prefix s k id ≤ 1
      → places r laws prefix
          (unlock_all r
            (key prefix q (locked t))
            (key prefix q active)
            (key prefix q (locked_score t))
            score
            ids
            s).0
          k
          id
        ≡ places r laws prefix s k id
  unfolding unlock_all
  places-unlock_all t q k id score [] s v w m h = refl
  places-unlock_all t q k id score (i ∷ ids) s v w m h =
      let pairs = bulk_data r (key prefix q (locked_score t)) score (i ∷ ids) s in
      let added = (r.zadd (key prefix q active) pairs s).0 in
      let unlocked = (r.zrem (key prefix q (locked t)) (i ∷ ids) added).0 in
      let apart = active_locked r laws prefix t in
      ground (
        arith,
        h,
        apart.differ,
        apart.pool_b,
        apart.shares s k id,
        m id,
        paired-bulk_data (key prefix q (locked_score t)) score (i ∷ ids) id s,
        present-overridden pairs id (at r laws prefix s k active id),
        places-zadd r laws prefix q k active pairs id s v w,
        places-zrem r laws prefix q k (locked t) (i ∷ ids) id added v w,
        at-zadd r laws prefix q k active (locked t) pairs id s v w,
        places-zrem r laws prefix q k (locked_score t) (i ∷ ids) id unlocked v w,
        no_share t,
      )

  -- One of the four pools has the id.
  in_some_pool-places :
      (q id : Str) (s : r.State)
      → in_some_pool r
          (key prefix q active
            ∷ key prefix q (locked lock_nack)
            ∷ key prefix q (locked lock_ack)
            ∷ key prefix q processing
            ∷ [])
          id
          s
        ≡ not (places r laws prefix s q id == 0)
  unfolding in_some_pool places at
  in_some_pool-places q id s = ground arith

  add_all-ids :
      (d : Str) (pairs : List (Score × Str)) (s : r.State)
      → (add_all r d pairs s).1 ≡ map (λ e. e.1) pairs
  unfolding add_all
  add_all-ids d [] s = refl
  add_all-ids d (e ∷ es) s = refl

  places-add_all :
      (q k id : Str) (pairs : List (Score × Str)) (s : r.State)
      → Valid q
      → Valid k
      → places r laws prefix (add_all r (key prefix q active) pairs s).0 k id
          + (if is_yes (Str_discrete q k) && paired id pairs
              then present (at r laws prefix s k active id)
              else 0)
        ≡ places r laws prefix s k id
          + (if is_yes (Str_discrete q k) && paired id pairs then 1 else 0)
  unfolding add_all exists
  places-add_all q k id [] s v w = ground arith
  places-add_all q k id (e ∷ es) s v w = ground (
    arith,
    present-overridden (e ∷ es) id (at r laws prefix s k active id),
    places-zadd r laws prefix q k active (e ∷ es) id s v w,
  )

  paired-keep :
      (p : Str → Bool) (pairs : List (Score × Str)) (id : Str)
      → paired id (keep (λ e. p e.1) pairs) ≡ (paired id pairs && p id)
  unfolding exists keep
  paired-keep p [] id = refl
  paired-keep p ((score, i) ∷ pairs) id = elim (Str_discrete i id) [
    | yes e ↦ ground (arith, ap p e, paired-keep p pairs id)
    | no e ↦ ground (arith, e, paired-keep p pairs id)
  ]

  -- An insertion puts each of its ids in one pool, if no other pool has it yet, and returns the ids that no pool had.
  pub places-add_elements :
      (q k id : Str) (pairs : List (Score × Str)) (s : r.State)
      → Valid q
      → Valid k
      → places r laws prefix s k id ≤ 1
      → places r laws prefix
          (add_elements r
            (key prefix q active)
            (key prefix q (locked lock_nack)
              ∷ key prefix q (locked lock_ack)
              ∷ key prefix q processing
              ∷ [])
            pairs
            s).0
          k
          id
        ≡ (if is_yes (Str_discrete q k) && paired id pairs then 1 else places r laws prefix s k id)
  unfolding add_elements
  places-add_elements q k id pairs s v w h =
      let pools =
        key prefix q active
        ∷ key prefix q (locked lock_nack)
        ∷ key prefix q (locked lock_ack)
        ∷ key prefix q processing
        ∷ [] in
      let fresh : Str → Bool = λ i. not (in_some_pool r pools i s) in
      elim (Str_discrete q k) [
        | yes e ↦ ground (
          arith,
          h,
          e,
          paired-keep fresh pairs id,
          in_some_pool-places q id s,
          (active_processing r laws prefix).shares s k id,
          places-add_all q k id (keep (λ e. fresh e.1) pairs) s v w,
        )
        | no e ↦ ground (arith, e, places-add_all q k id (keep (λ e. fresh e.1) pairs) s v w)
      ]

  at-remove_elements :
      (q k : Str) (slots : List Slot) (b : Slot) (ids : List Str) (id : Str) (s : r.State)
      → Valid q
      → Valid k
      → at r laws prefix (remove_elements r (map (key prefix q) slots) ids s).0 k b id ≡ (
          if (is_yes (Str_discrete q k) && exists (λ a. same_slot a b) slots) && among_ids id ids
          then none
          else at r laws prefix s k b id)
  unfolding remove_elements exists
  at-remove_elements q k [] b ids id s v w = ground arith
  at-remove_elements q k (a ∷ slots) b ids id s v w = ground (
    arith,
    at-remove_elements q k slots b ids id (r.zrem (key prefix q a) ids s).0 v w,
    at-zrem r laws prefix q k a b ids id s v w,
  )

  -- After a removal no pool of the queue has one of the ids.
  pub places-remove_elements :
      (q k : Str) (ids : List Str) (id : Str) (s : r.State)
      → Valid q
      → Valid k
      → places r laws prefix (remove_elements r (map (key prefix q) slots) ids s).0 k id
        ≡ (if is_yes (Str_discrete q k) && among_ids id ids then 0 else places r laws prefix s k id)
  unfolding places exists
  places-remove_elements q k ids id s v w = ground (
    arith,
    at-remove_elements q k slots active ids id s v w,
    at-remove_elements q k slots processing ids id s v w,
    at-remove_elements q k slots (locked lock_ack) ids id s v w,
    at-remove_elements q k slots (locked lock_nack) ids id s v w,
  )
