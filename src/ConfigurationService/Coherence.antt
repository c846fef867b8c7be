-- ===== src/ConfigurationService/Coherence.antt =====
-- The histories of internal/queue/queue_configuration_service.go over the memory storage.
use deckard.Common.{
  ◌≡◌, refl, sym, ap, subst, ◌∙◌, none, some, [], true, false, if◌then◌else◌, Str, Str_discrete,
  arith, inl, inr, Option-cases, Bool-cases, not,
}
use deckard.Common.Int.{ℤ, pos, eq_of_parts, eqb_ℤ, ltb_ℤ, ◌≤ℤ◌}
use deckard.Common.Maps.{lookup}
use deckard.Outcome.{ok}
use deckard.Dtime.{Time}
use deckard.Score.{Score}
use deckard.Storage.{QueueConfiguration}
use deckard.MemoryStorage.{edit_queue_configuration}
use deckard.Queue.Memory.{memory_storage}
use deckard.ConfigurationService.Entries.{
  View, edited, no_configurations, Service, Coherent, get_configuration-Coherent,
  edit_storage-Coherent, unchanged-Coherent,
}
use deckard.ConfigurationService.{
  LocalCache, LocalCacheLaws, edit_storage, edit_configuration, get_configuration,
}

module _ (P : Type 0) (l : LocalCache) (laws : LocalCacheLaws l)
    (add_float : Score → Score → Score) where
  -- The histories of the service: a new one, over an empty storage, and then calls at readings of the clock that do not go back.
  pub data Serves : Time → View → Service P l → Type 0 where
    starts :
        (now : Time) (s : Service P l)
        → ((later : Time) (q : Str) → l.get_local later s.local_cache q ≡ none)
        → s.storage.configurations ≡ []
        → Serves now no_configurations s
    waits :
        {now later : Time} {v : View} {s : Service P l}
        → now ≤ℤ later
        → Serves now v s
        → Serves later v s
    gets :
        {now : Time} {v : View} {s : Service P l}
        → Serves now v s
        → (q : Str) → Serves now v (get_configuration l (memory_storage P add_float) now s q).0
    edits :
        {now : Time} {v : View} {s : Service P l}
        → Serves now v s
        → (c : QueueConfiguration)
        → Serves now
            (edited c v)
            (edit_configuration l (memory_storage P add_float) now s (some c)).0

  -- The states that an edit may leave.
  edit_configuration-zero :
      (now : Time) (s : Service P l) (c : QueueConfiguration)
      → eqb_ℤ c.max_elements (pos 0) ≡ true
      → s ≡ (edit_configuration l (memory_storage P add_float) now s (some c)).0
  unfolding edit_configuration edit_storage
  edit_configuration-zero now s c z = ground (arith, z)

  edit_configuration-unknown :
      (now : Time) (s : Service P l) (c : QueueConfiguration)
      → eqb_ℤ c.max_elements (pos 0) ≡ false
      → l.get_local now s.local_cache c.queue ≡ none
      → record s { storage = (edit_queue_configuration s.storage c).0 }
        ≡ (edit_configuration l (memory_storage P add_float) now s (some c)).0
  unfolding edit_configuration edit_storage
  edit_configuration-unknown now s c z e = ground (arith, z, e)

  edit_configuration-known :
      (now : Time) (s : Service P l) (c x : QueueConfiguration)
      → eqb_ℤ c.max_elements (pos 0) ≡ false
      → l.get_local now s.local_cache c.queue ≡ some x
      → (if not (eqb_ℤ x.max_elements c.max_elements)
          then record s {
            local_cache = l.delete_local c.queue s.local_cache;
            storage = (edit_queue_configuration s.storage c).0;
          }
          else s)
        ≡ (edit_configuration l (memory_storage P add_float) now s (some c)).0
  unfolding edit_configuration edit_storage
  edit_configuration-known now s c x z e = ground (arith, z, e)

  -- An edit to what the view says already.
  edited-same :
      (v : View) (c : QueueConfiguration) (q : Str)
      → (v q).queue ≡ q
      → ltb_ℤ (v q).max_elements (pos 0) ≡ false
      → (v c.queue).max_elements ≡ c.max_elements
      → edited c v q ≡ v q
  unfolding edited
  edited-same v c q n b e = elim (Str_discrete c.queue q) [
    | yes m ↦ ground (arith, n, b, e, ap v m)
    | no m ↦ ground (arith, m)
  ]

  edited-zero :
      (v : View) (c : QueueConfiguration) (q : Str)
      → eqb_ℤ c.max_elements (pos 0) ≡ true
      → edited c v q ≡ v q
  unfolding edited
  edited-zero v c q z = ground (arith, z)

  eq_of_eqb : (a b : ℤ) → eqb_ℤ a b ≡ true → a ≡ b
  eq_of_eqb a b h = eq_of_parts a b (ground (arith, h))

  edit_configuration-Coherent :
      (now : Time) (v : View) (s : Service P l) (c : QueueConfiguration)
      → Coherent P l laws add_float now v s
      → Coherent P l laws add_float now
          (edited c v)
          (edit_configuration l (memory_storage P add_float) now s (some c)).0
  edit_configuration-Coherent now v s c h = elim (Bool-cases (eqb_ℤ c.max_elements (pos 0))) [
    | inl z ↦
        subst (Coherent P l laws add_float now (edited c v)) (edit_configuration-zero now s c z)
          (unchanged-Coherent P l laws add_float now v (edited c v) s h (λ q. edited-zero v c q z))
    | inr z ↦ elim (Option-cases (l.get_local now s.local_cache c.queue)) [
      | inl e ↦
          subst (Coherent P l laws add_float now (edited c v))
            (edit_configuration-unknown now s c z e)
            (edit_storage-Coherent P l laws add_float now v s c s.local_cache h z (λ later q x o g.
              (
                λ m. ground (
                  arith,
                  e,
                  laws.get_later now later q x s.local_cache o g,
                  ap (l.get_local now s.local_cache) m,
                ),
                g,
              )))
      | inr (x, e) ↦
          subst (Coherent P l laws add_float now (edited c v))
            (edit_configuration-known now s c x z e)
            (elim (Bool-cases (eqb_ℤ x.max_elements c.max_elements)) [
              | inl same ↦ rw same (
                  unchanged-Coherent P l laws add_float now v (edited c v) s h (λ q.
                    edited-same v c q (h.named q) (h.clamped q) (
                      ap (λ c. c.max_elements) (sym (h.cached now c.queue x (omega arith) e))
                      ∙ eq_of_eqb _ _ same)))
              | inr differ ↦ rw differ (
                  edit_storage-Coherent P l laws add_float now v s c
                    (l.delete_local c.queue s.local_cache) h z
                    (λ later q y o g. elim (laws.get_delete later c.queue q s.local_cache) [
                      | inl f ↦ absurd (ground (arith, f, g))
                      | inr (m, f) ↦ (m, sym f ∙ g)
                    ]))
            ])
    ]
  ]

  Serves-Coherent :
      {now : Time} {v : View} {s : Service P l}
      → Serves now v s
      → Coherent P l laws add_float now v s
  unfolding lookup
  Serves-Coherent (starts now s fresh e) = record {
    stored = λ q. rw e refl;
    clamped = λ q. refl;
    named = λ q. refl;
    cached = λ later q x o g. ground (arith, fresh later q, g);
  }
  Serves-Coherent (waits {now} {later} {v} {s} o h) =
      let g = Serves-Coherent h in
      record {
        stored = g.stored;
        clamped = g.clamped;
        named = g.named;
        cached = λ t q x p. g.cached t q x (omega (arith, o, p));
      }
  Serves-Coherent (gets {now} {v} {s} h q) =
      (get_configuration-Coherent P l laws add_float now v s q (Serves-Coherent h)).1
  Serves-Coherent (edits {now} {v} {s} h c) =
      edit_configuration-Coherent now v s c (Serves-Coherent h)

  -- Over the memory storage the configuration service implements a map from queues to configurations, whatever its local cache lets
  -- expire: after any calls from a new service on, reading a queue never fails and gives the queue's last edit, a negative
  -- maximum as 0 and edits to a maximum of 0 left out, or no maximum where there was no edit. The calls come one after the other.
  pub get_configuration-Serves :
      {now : Time} {v : View} {s : Service P l} (q : Str)
      → Serves now v s
      → (get_configuration l (memory_storage P add_float) now s q).1 ≡ ok (v q)
  get_configuration-Serves {now} {v} {s} q h =
      (get_configuration-Coherent P l laws add_float now v s q (Serves-Coherent h)).0
