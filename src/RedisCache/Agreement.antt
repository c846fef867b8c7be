-- ===== src/RedisCache/Agreement.antt =====
-- internal/queue/cache/redis_cache.go against internal/queue/cache/memory_cache.go: the pools of every id in both.
use deckard.Common.{
  ◌==◌, ℕ, ◌≡◌, ◌≢◌, refl, ap, ◌∙◌, false, not, ◌&&◌, Option, none, some, [], ◌∷◌, if◌then◌else◌,
  Str, Str_discrete, is_yes, exists, arith, inl, inr, Option-cases,
}
use deckard.Outcome.{Result, Error, ok, err, invalid_message_queue, making_available}
use deckard.Score.{Score}
use deckard.Message.{Message}
use deckard.Entries.{create_entry}
use deckard.MemoryCache.{MemoryCache, lock_ack, lock_nack, make_available}
use deckard.MemoryCache.Copies.{
  copies_at, total, OneCopy, copies_at-enter, copies_at-leave, removed-copies_at,
}
use deckard.Redis.{done, Redis, RedisLaws, present}
use deckard.RedisCache.{is_one, wrapped, make_available_redis}
use deckard.RedisCache.Naming.{Slot, active, processing, locked, key, same_slot}
use deckard.RedisCache.Places.{Valid, at, places, OnePlace, at-zadd, at-zrem, zrem_at}
use deckard.RedisCache.Moving.{active_processing, moved-move_element}
use deckard.RedisCache.Scripts.{move_element}

-- The client runs every script once and returns its reply.
abbrev pub Reliable : Redis → Type 1
Reliable r =
    (A : Type 0) (script : r.State → r.State × Result A) (s : r.State) → r.run script s ≡ script s

module _ (r : Redis) (laws : RedisLaws r) (prefix : Str) where
  -- Each pool of the memory cache has an id as often as the sorted set of the pool.
  pub record Agree (c : MemoryCache) (s : r.State) : Type 0 where
    pub primary :
        (q id : Str) → Valid q → copies_at c.queues q id ≡ present (at r laws prefix s q active id)
    pub in_process :
        (q id : Str)
        → Valid q
        → copies_at c.processing_queues q id ≡ present (at r laws prefix s q processing id)
    pub acked :
        (q id : Str)
        → Valid q
        → copies_at c.lock_ack_queues q id ≡ present (at r laws prefix s q (locked lock_ack) id)
    pub nacked :
        (q id : Str)
        → Valid q
        → copies_at c.lock_nack_queues q id ≡ present (at r laws prefix s q (locked lock_nack) id)

  Agree-places :
      (c : MemoryCache) (s : r.State)
      → Agree c s
      → (q id : Str) → Valid q
      → places r laws prefix s q id ≡ total c q id
  unfolding places total
  Agree-places c s g q id v =
      omega (arith, g.primary q id v, g.in_process q id v, g.acked q id v, g.nacked q id v)

  -- What the script that moves an element leaves in a sorted set.
  present-move_element :
      (a b : Slot) (q k i id : Str) (c : Slot) (score : Score) (s : r.State)
      → same_slot a b ≡ false
      → Valid q
      → Valid k
      → present
          (at r laws prefix (move_element r (key prefix q a) (key prefix q b) score i s).0 k c id)
        ≡ (if is_yes (Str_discrete q k)
              && is_yes (Str_discrete i id)
              && not (present (at r laws prefix s q b i) == 0)
            then (if same_slot a c
                then 1
                else if same_slot b c
                then 0
                else present (at r laws prefix s k c id))
            else present (at r laws prefix (r.zrem (key prefix q b) (i ∷ []) s).0 k c id))
  unfolding move_element exists
  present-move_element a b q k i id c score s d v w =
      elim (Option-cases (at r laws prefix s q b i)) [
        | inl e ↦ rw (zrem_at r laws prefix q i b s, e, move_element) (ground arith)
        | inr (x, e) ↦
            rw (zrem_at r laws prefix q i b s, e, move_element)
              (ground (
                arith,
                at-zrem r laws prefix q k b c (i ∷ []) id s v w,
                at-zadd r laws prefix q k a c ((score, i) ∷ []) id
                    (r.zrem (key prefix q b) (i ∷ []) s).0 v w,
              ))
      ]

  -- The states after the memory cache's call and the script, if the message's queue has a valid name.
  make_available-Agree :
      {P : Type 0} (c : MemoryCache) (s : r.State) (m : Message P)
      → OneCopy c
      → Agree c s
      → Valid m.queue
      → m.queue ≢ []
      → Agree
          (make_available c m).0
          (move_element r
            (key prefix m.queue active)
            (key prefix m.queue processing)
            m.score
            m.id
            s).0
  unfolding make_available create_entry exists total
  make_available-Agree c s m o g v n = record {
    primary = λ q id w. ground (
      arith,
      n,
      o m.queue m.id,
      g.primary q id w,
      g.in_process m.queue m.id v,
      removed-copies_at m.queue (create_entry m) c.processing_queues,
      copies_at-enter m.queue (create_entry m) c.queues q id,
      at-zrem r laws prefix m.queue q processing active (m.id ∷ []) id s v w,
      present-move_element active processing m.queue q m.id id active m.score s refl v w,
    );
    in_process = λ q id w. ground (
      arith,
      n,
      o m.queue m.id,
      g.in_process q id w,
      g.in_process m.queue m.id v,
      removed-copies_at m.queue (create_entry m) c.processing_queues,
      copies_at-leave m.queue (create_entry m) c.processing_queues q id,
      at-zrem r laws prefix m.queue q processing processing (m.id ∷ []) id s v w,
      present-move_element active processing m.queue q m.id id processing m.score s refl v w,
    );
    acked = λ q id w. ground (
      arith,
      n,
      o m.queue m.id,
      g.acked q id w,
      g.in_process m.queue m.id v,
      removed-copies_at m.queue (create_entry m) c.processing_queues,
      copies_at-leave m.queue (create_entry m) c.processing_queues q id,
      at-zrem r laws prefix m.queue q processing (locked lock_ack) (m.id ∷ []) id s v w,
      present-move_element active processing m.queue q m.id id (locked lock_ack) m.score s refl v w,
    );
    nacked = λ q id w. ground (
      arith,
      n,
      o m.queue m.id,
      g.nacked q id w,
      g.in_process m.queue m.id v,
      removed-copies_at m.queue (create_entry m) c.processing_queues,
      copies_at-leave m.queue (create_entry m) c.processing_queues q id,
      at-zrem r laws prefix m.queue q processing (locked lock_nack) (m.id ∷ []) id s v w,
      present-move_element active processing m.queue q m.id id (locked lock_nack) m.score s refl v
          w,
    );
  }

  one-present :
      (wrap : Error → Error) (t : r.State) (n : ℕ) (o : Option Score)
      → n ≡ present o
      → is_one (wrapped wrap (t, ok n)) ≡ (t, ok (not (present o == 0)))
  one-present wrap t n none e = rw e refl
  one-present wrap t n (some x) e = rw e refl

  made_available :
      {P : Type 0} (s : r.State) (m : Message P)
      → Reliable r
      → OnePlace r laws prefix s
      → Valid m.queue
      → m.queue ≢ []
      → make_available_redis r prefix s m ≡ (
        (move_element r
            (key prefix m.queue active)
            (key prefix m.queue processing)
            m.score
            m.id
            s).0,
        ok (not (present (at r laws prefix s m.queue processing m.id) == 0)),
      )
  unfolding make_available_redis key
  made_available s m reliable h v n =
      let script =
        move_element r (key prefix m.queue active) (key prefix m.queue processing) m.score m.id in
      let whole : r.State → r.State × Result ℕ = λ t. done (script t) in
      let asked : make_available_redis r prefix s m
          ≡ is_one (wrapped making_available (r.run whole s)) =
        ground (arith, n, v) in
      asked
      ∙ ap (λ x. is_one (wrapped making_available x)) (reliable ℕ whole s)
      ∙ one-present making_available (script s).0 (script s).1
          (at r laws prefix s m.queue processing m.id)
          (moved-move_element r laws prefix active processing m.queue m.id m.score s
            (active_processing r laws prefix) v (h m.queue m.id v))

  refused :
      {P : Type 0} (c : MemoryCache) (s : r.State) (m : Message P)
      → m.queue ≡ []
      → make_available c m ≡ (c, err invalid_message_queue)
  unfolding make_available
  refused c s m e = ground (arith, e)

  refused_redis :
      {P : Type 0} (s : r.State) (m : Message P)
      → m.queue ≡ []
      → make_available_redis r prefix s m ≡ (s, err invalid_message_queue)
  unfolding make_available_redis
  refused_redis s m e = ground (arith, e)

  returned :
      {P : Type 0} (c : MemoryCache) (s : r.State) (m : Message P)
      → OneCopy c
      → Agree c s
      → Valid m.queue
      → m.queue ≢ []
      → (make_available c m).1
        ≡ ok (not (present (at r laws prefix s m.queue processing m.id) == 0))
  unfolding make_available create_entry
  returned c s m o g v n = ground (
    arith,
    n,
    o m.queue m.id,
    g.in_process m.queue m.id v,
    removed-copies_at m.queue (create_entry m) c.processing_queues,
  )

  -- Where a memory cache and a Redis cache agree and the client is reliable, `MakeAvailable` of a message of a queue with a valid name returns the same
  -- from both, errors included, and leaves them in agreement.
  pub make_available-make_available_redis :
      {P : Type 0} (c : MemoryCache) (s : r.State) (m : Message P)
      → Reliable r
      → OneCopy c
      → Agree c s
      → Valid m.queue
      → ((make_available c m).1 ≡ (make_available_redis r prefix s m).1)
        × Agree (make_available c m).0 (make_available_redis r prefix s m).0
  make_available-make_available_redis c s m reliable o g v = elim (Str_discrete m.queue []) [
    | yes e ↦ rw (refused c s m e, refused_redis s m e) (refl, g)
    | no n ↦
        let one : OnePlace r laws prefix s =
          λ q id w. omega (arith, o q id, Agree-places c s g q id w) in
        rw (made_available s m reliable one v n)
          (returned c s m o g v n, make_available-Agree c s m o g v n)
  ]
