-- ===== src/ConfigurationService/Entries.antt =====
-- The entries of the local cache of internal/queue/queue_configuration_service.go against the memory storage.
use deckard.Common.{
  ◌≡◌, ◌≢◌, sym, ap, subst, ◌∙◌, none, some, false, if◌then◌else◌, ite, Str, Str_discrete, arith,
  inl, inr, Option-cases,
}
use deckard.Common.Int.{pos, eqb_ℤ, ltb_ℤ, ◌≤ℤ◌}
use deckard.Common.Maps.{lookup, lookup-insert}
use deckard.Outcome.{ok}
use deckard.Dtime.{Time}
use deckard.Score.{Score}
use deckard.Storage.{QueueConfiguration}
use deckard.MemoryStorage.{MemoryStorage, edit_queue_configuration, get_queue_configuration}
use deckard.Queue.Memory.{memory_storage}
use deckard.ConfigurationService.{
  LocalCache, LocalCacheLaws, Configurations, get_configuration, or_default,
}

-- What the clients of the service may think of: a configuration of each queue.
abbrev pub View : Type 0
View = Str → QueueConfiguration

-- An edit, a negative maximum as 0; a maximum of 0 changes nothing.
unfoldable pub edited : QueueConfiguration → View → View
edited c v q =
    if eqb_ℤ c.max_elements (pos 0)
    then v q
    else ite (Str_discrete c.queue q)
        (record {
          queue = q;
          max_elements = if ltb_ℤ c.max_elements (pos 0) then pos 0 else c.max_elements;
        })
        (v q)

abbrev pub no_configurations : View
no_configurations q = record { queue = q; max_elements = pos 0 }

abbrev pub Service : Type 0 → LocalCache → Type 0
Service P l = Configurations l.State (MemoryStorage P)

module _ (P : Type 0) (l : LocalCache) (laws : LocalCacheLaws l)
    (add_float : Score → Score → Score) where
  -- What the storage says of each queue is the view, and from now on no entry of the local cache says otherwise.
  pub record Coherent (now : Time) (v : View) (s : Service P l) : Type 0 where
    pub stored : (q : Str) → or_default q (lookup q s.storage.configurations) ≡ v q
    pub clamped : (q : Str) → ltb_ℤ (v q).max_elements (pos 0) ≡ false
    pub named : (q : Str) → (v q).queue ≡ q
    pub cached :
        (later : Time) (q : Str) (c : QueueConfiguration)
        → now ≤ℤ later
        → l.get_local later s.local_cache q ≡ some c
        → c ≡ v q

  get_configuration-found :
      (now : Time) (s : Service P l) (q : Str) (c : QueueConfiguration)
      → l.get_local now s.local_cache q ≡ some c
      → (s, ok c) ≡ get_configuration l (memory_storage P add_float) now s q
  unfolding get_configuration
  get_configuration-found now s q c e = ground (arith, e)

  get_configuration-loaded :
      (now : Time) (s : Service P l) (q : Str)
      → l.get_local now s.local_cache q ≡ none
      → let c = or_default q (lookup q s.storage.configurations) in
        (record s { local_cache = l.set_local now q c s.local_cache }, ok c)
        ≡ get_configuration l (memory_storage P add_float) now s q
  unfolding get_configuration get_queue_configuration
  get_configuration-loaded now s q e = ground (arith, e)

  set_local-Coherent :
      (now : Time) (v : View) (s : Service P l) (q : Str) (c : QueueConfiguration)
      → Coherent now v s
      → c ≡ v q
      → Coherent now v (record s { local_cache = l.set_local now q c s.local_cache })
  set_local-Coherent now v s q c h w = record {
    stored = h.stored;
    clamped = h.clamped;
    named = h.named;
    cached = λ later k x o g. elim (laws.get_set later now q k c s.local_cache) [
      | inl f ↦ ground (arith, f, g)
      | inr f ↦ elim (Str_discrete q k) [
        | yes m ↦ ground (arith, f, g, m, w, ap v m)
        | no m ↦ h.cached later k x o (ground (arith, f, g, m))
      ]
    ];
  }

  pub get_configuration-Coherent :
      (now : Time) (v : View) (s : Service P l) (q : Str)
      → Coherent now v s
      → let r = get_configuration l (memory_storage P add_float) now s q in
        (r.1 ≡ ok (v q)) × Coherent now v r.0
  get_configuration-Coherent now v s q h = elim (Option-cases (l.get_local now s.local_cache q)) [
    | inl e ↦
        subst (λ r. (r.1 ≡ ok (v q)) × Coherent now v r.0) (get_configuration-loaded now s q e)
          (ap ok (h.stored q), set_local-Coherent now v s q _ h (h.stored q))
    | inr (c, e) ↦
        subst (λ r. (r.1 ≡ ok (v q)) × Coherent now v r.0) (get_configuration-found now s q c e)
          (ap ok (h.cached now q c (omega arith) e), h)
  ]

  -- An edit that the storage takes, with any local cache that has nothing of the queue.
  pub edit_storage-Coherent :
      (now : Time) (v : View) (s : Service P l) (c : QueueConfiguration) (local : l.State)
      → Coherent now v s
      → eqb_ℤ c.max_elements (pos 0) ≡ false
      → ((later : Time) (q : Str) (x : QueueConfiguration)
          → now ≤ℤ later
          → l.get_local later local q ≡ some x
          → (c.queue ≢ q) × (l.get_local later s.local_cache q ≡ some x))
      → Coherent now
          (edited c v)
          (record s { local_cache = local; storage = (edit_queue_configuration s.storage c).0 })
  unfolding edited edit_queue_configuration
  edit_storage-Coherent now v s c local h z fresh = record {
    stored = λ q. elim (Str_discrete c.queue q) [
      | yes m ↦
          subst
            (λ q.
              or_default q (lookup q (edit_queue_configuration s.storage c).0.configurations)
              ≡ edited c v q)
            m
            (ground (
              arith,
              z,
              lookup-insert c.queue c.queue
                  (if ltb_ℤ c.max_elements (pos 0) then record c { max_elements = pos 0 } else c)
                  s.storage.configurations,
            ))
      | no m ↦ ground (
        arith,
        z,
        m,
        h.stored q,
        lookup-insert c.queue q
            (if ltb_ℤ c.max_elements (pos 0) then record c { max_elements = pos 0 } else c)
            s.storage.configurations,
      )
    ];
    clamped = λ q. ground (arith, z, h.clamped q);
    named = λ q. ground (arith, z, h.named q);
    cached = λ later q x o g.
        let (m, f) = fresh later q x o g in ground (arith, z, m, h.cached later q x o f);
  }

  pub unchanged-Coherent :
      (now : Time) (v w : View) (s : Service P l)
      → Coherent now v s
      → ((q : Str) → w q ≡ v q)
      → Coherent now w s
  unchanged-Coherent now v w s h e = record {
    stored = λ q. h.stored q ∙ sym (e q);
    clamped = λ q. ap (λ c. ltb_ℤ c.max_elements (pos 0)) (e q) ∙ h.clamped q;
    named = λ q. ap (λ c. c.queue) (e q) ∙ h.named q;
    cached = λ later q x o g. h.cached later q x o g ∙ sym (e q);
  }
