-- ===== src/RedisCache/Steps.antt =====
-- The Redis cache as a state machine: any sequence of its operations, each of which may report an error.
use deckard.Common.{
  Bool, ◌≤◌, ◌<◌, ℕ, ◌+◌, Option, List, [], ◌∷◌, ◌++◌, Str, map, arith, inl, inr, length,
}
use deckard.Common.Int.{ℤ, pos}
use deckard.Outcome.{Error, Result-cases}
use deckard.Dtime.{Time}
use deckard.Score.{Score}
use deckard.Message.{Message}
use deckard.MemoryCache.{LockType, lock_ack, lock_nack}
use deckard.Redis.{Redis, RedisLaws, done}
use deckard.RedisCache.{
  partition, remove_parts, remove_redis, make_available_redis, lock_message_redis,
  unlock_messages_redis, pull_messages_redis, timeout_messages_redis, insert_parts, insert_redis,
  set_redis,
}
use deckard.RedisCache.Lists.{flush_redis}
use deckard.RedisCache.Flushing.{flush_redis-OnePlace}
use deckard.RedisCache.Keys.{general_cache_key}
use deckard.RedisCache.Naming.{active, processing, locked, key, slots, test-general}
use deckard.RedisCache.Places.{Valid, at, places, OnePlace}
use deckard.RedisCache.Entering.{places-add_elements, places-remove_elements}
use deckard.RedisCache.Operations.{
  run-keeps, for_valid-keeps, wrapped-Same, if-keeps, Same, make_available_redis-Same,
  lock_message_redis-Same, unlock_messages_redis-Same, timeout_messages_redis-Same,
  pull_messages_redis-Same,
}
use deckard.RedisCache.Scripts.{add_elements, remove_elements, unpack_limit}

module _ (r : Redis) (laws : RedisLaws r) (prefix : Str) where
  set_redis-Same :
      (s : r.State) (k v : Str)
      → OnePlace r laws prefix s
      → Same r laws prefix s (set_redis r prefix s k v).0
  unfolding set_redis places at
  set_redis-Same s k v h = wrapped-Same r laws prefix _ _ s h (λ s g q id w. ground (
    arith,
    laws.zscore_set_key (general_cache_key prefix k) v (key prefix q active) id s,
    laws.zscore_set_key (general_cache_key prefix k) v (key prefix q processing) id s,
    laws.zscore_set_key (general_cache_key prefix k) v (key prefix q (locked lock_ack)) id s,
    laws.zscore_set_key (general_cache_key prefix k) v (key prefix q (locked lock_nack)) id s,
    test-general prefix k q active,
    test-general prefix k q processing,
    test-general prefix k q (locked lock_ack),
    test-general prefix k q (locked lock_nack),
  ))

  remove_parts-OnePlace :
      (q : Str) (parts : List (List Str)) (n : ℕ) (s : r.State)
      → Valid q
      → OnePlace r laws prefix s
      → OnePlace r laws prefix (remove_parts r prefix q parts n s).0
  unfolding remove_parts key
  remove_parts-OnePlace q [] n s v h = h
  remove_parts-OnePlace q (ids ∷ parts) n s v h =
      let script = λ (t : r.State). done (remove_elements r (map (key prefix q) slots) ids t) in
      let g : OnePlace r laws prefix (r.run script s).0 =
        run-keeps r laws prefix (OnePlace r laws prefix) script s h (λ t g k id w.
          ground (arith, g k id w, places-remove_elements r laws prefix q k ids id t v w)) in
      elim (Result-cases (r.run script s).1) [
        | inl (m, e) ↦
            rw (e, remove_parts) (remove_parts-OnePlace q parts (n + m) (r.run script s).0 v g)
        | inr (inl (x, e)) ↦ rw (e, remove_parts) g
        | inr (inr e) ↦ rw (e, remove_parts) g
      ]

  insert_parts-OnePlace :
      {P : Type 0} (q : Str) (parts : List (List (Message P))) (ids : List Str) (s : r.State)
      → Valid q
      → OnePlace r laws prefix s
      → OnePlace r laws prefix (insert_parts r prefix q parts ids s).0
  unfolding insert_parts key
  insert_parts-OnePlace q [] ids s v h = h
  insert_parts-OnePlace q (ms ∷ parts) ids s v h =
      let pairs = map (λ m. (m.score, m.id)) ms in
      let script = λ (t : r.State). done (
        add_elements r (key prefix q active)
          (key prefix q (locked lock_nack)
            ∷ key prefix q (locked lock_ack)
            ∷ key prefix q processing
            ∷ [])
          pairs t) in
      let g : OnePlace r laws prefix (r.run script s).0 =
        run-keeps r laws prefix (OnePlace r laws prefix) script s h (λ t g k id w.
          ground
            (arith, g k id w, places-add_elements r laws prefix q k id pairs t v w (g k id w))) in
      elim (Result-cases (r.run script s).1) [
        | inl (new, e) ↦
            rw (e, insert_parts) (insert_parts-OnePlace q parts (ids ++ new) (r.run script s).0 v g)
        | inr (inl (x, e)) ↦ rw (e, insert_parts) g
        | inr (inr e) ↦ rw (e, insert_parts) g
      ]

  pub insert_redis-OnePlace :
      {P : Type 0} (s : r.State) (q : Str) (ms : List (Message P))
      → OnePlace r laws prefix s
      → OnePlace r laws prefix (insert_redis r prefix s q ms).0
  unfolding insert_redis
  insert_redis-OnePlace s q ms h =
      for_valid-keeps r laws prefix (OnePlace r laws prefix) q s _ h (λ v.
        if-keeps r laws prefix (OnePlace r laws prefix) _ s _ _ h
          (insert_parts-OnePlace q (partition (length ms) 2000 ms) [] s v h))

  pub remove_redis-OnePlace :
      (s : r.State) (q : Str) (ids : List Str)
      → OnePlace r laws prefix s
      → OnePlace r laws prefix (remove_redis r prefix s q ids).0
  unfolding remove_redis
  remove_redis-OnePlace s q ids h =
      for_valid-keeps r laws prefix (OnePlace r laws prefix) q s _ h
        (λ v. remove_parts-OnePlace q (partition (length ids) 4000 ids) 0 s v h)

  module _ (P : Type 0) where
    -- The calls that move messages between the pools.
    pub data Move : r.State → r.State → Type 0 where
      makes_available : (s : r.State) (m : Message P) → Move s (make_available_redis r prefix s m).0
      locks_message :
          (s : r.State) (now : Time) (m : Message P) (t : LockType)
          → Move s (lock_message_redis r prefix now s m t).0
      unlocks :
          (s : r.State) (scored_at now : Time) (q : Str) (t : LockType)
          → Move s (unlock_messages_redis r prefix scored_at now s q t).0
      pulls :
          (s : r.State) (now : Time) (q : Str) (n : ℕ) (lo hi : Option Score) (deadline : ℤ)
          → 1 ≤ n
          → n < unpack_limit
          → Move s (pull_messages_redis r prefix now s q (pos n) lo hi deadline).0
      times_out :
          (s : r.State) (now : Time) (q : Str) → Move s (timeout_messages_redis r prefix now s q).0
      sets : (s : r.State) (k v : Str) → Move s (set_redis r prefix s k v).0

    pub data Reach (s : r.State) : r.State → Type 0 where
      here : Reach s s
      moves : {t u : r.State} → Reach s t → Move t u → Reach s u
      inserts :
          {t : r.State}
          → Reach s t
          → (q : Str) (ms : List (Message P)) → Reach s (insert_redis r prefix t q ms).0
      removes :
          {t : r.State}
          → Reach s t
          → (q : Str) (ids : List Str) → Reach s (remove_redis r prefix t q ids).0
      flushes :
          {t : r.State}
          → Reach s t
          → (crosses_slot : Error → Bool) → Reach s (flush_redis r prefix crosses_slot t)

    -- While no id of a queue stands in two of its pools, making available, locking, unlocking, timing out, setting a key, and pulling at
    -- least one and fewer than 8000 messages, leave every id of every queue with a valid name in as many pools as before, also when
    -- the client sends a script again or reports an error.
    pub Move-Same : {s t : r.State} → Move s t → OnePlace r laws prefix s → Same r laws prefix s t
    Move-Same (makes_available s m) h = make_available_redis-Same r laws prefix s m h
    Move-Same (locks_message s now m t) h = lock_message_redis-Same r laws prefix now s m t h
    Move-Same (unlocks s scored_at now q t) h =
        unlock_messages_redis-Same r laws prefix scored_at now s q t h
    Move-Same (pulls s now q n lo hi deadline some_asked few) h =
        pull_messages_redis-Same r laws prefix now s q n lo hi deadline some_asked few h
    Move-Same (times_out s now q) h = timeout_messages_redis-Same r laws prefix now s q h
    Move-Same (sets s k v) h = set_redis-Same s k v h

    -- If no id of a queue stands in two of the queue's pools, then none does after any sequence of these calls, insertions,
    -- removals and flushes, for queues whose names the cache accepts, also where the client sends scripts again or reports errors. Each
    -- pull is of at least one and fewer than 8000 messages.
    pub Reach-OnePlace :
        {s t : r.State} → OnePlace r laws prefix s → Reach s t → OnePlace r laws prefix t
    Reach-OnePlace h here = h
    Reach-OnePlace h (moves p m) =
        let g = Reach-OnePlace h p in λ k id w. ground (arith, g k id w, Move-Same m g k id w)
    Reach-OnePlace h (inserts {t} p q ms) = insert_redis-OnePlace t q ms (Reach-OnePlace h p)
    Reach-OnePlace h (removes {t} p q ids) = remove_redis-OnePlace t q ids (Reach-OnePlace h p)
    Reach-OnePlace h (flushes {t} p crosses_slot) =
        flush_redis-OnePlace r laws prefix crosses_slot t (Reach-OnePlace h p)
