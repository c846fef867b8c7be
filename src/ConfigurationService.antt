-- ===== src/ConfigurationService.antt =====
-- internal/queue/queue_configuration_service.go: configurations of queues behind a local cache. The local cache is the
-- go-cache library: an interface with what its documentation says.
pub mod Entries
pub mod Coherence
use deckard.Common.{
  Option, none, some, ◌≡◌, ◌⊎◌, Bool, if◌then◌else◌, Str, Str_discrete, is_yes, not,
}
use deckard.Common.Int.{ℤ, pos, eqb_ℤ, ◌≤ℤ◌}
use deckard.Outcome.{Result, ok, err, panic}
use deckard.Dtime.{Time}
use deckard.Storage.{QueueConfiguration}
use deckard.Interfaces.{Storage}

-- An entry that has expired at the time of a `get_local` is not found.
pub record LocalCache : Type 1 where
  pub State : Type 0
  pub get_local : Time → State → Str → Option QueueConfiguration
  pub set_local : Time → Str → QueueConfiguration → State → State
  pub delete_local : Str → State → State

-- What was set last is found, or it has expired; what was deleted is not found; other keys are as before.
pub record LocalCacheLaws (l : LocalCache) : Type 0 where
  pub get_set :
      (now set_at : Time) (queue q : Str) (c : QueueConfiguration) (s : l.State)
      → (l.get_local now (l.set_local set_at queue c s) q ≡ none)
        ⊎ (l.get_local now (l.set_local set_at queue c s) q
            ≡ (if is_yes (Str_discrete queue q) then some c else l.get_local now s q))
  pub get_delete :
      (now : Time) (queue q : Str) (s : l.State)
      → (l.get_local now (l.delete_local queue s) q ≡ none)
        ⊎ ((queue ≡ q → ⊥) × (l.get_local now (l.delete_local queue s) q ≡ l.get_local now s q))
  -- Entries go with time, and none comes.
  pub get_later :
      (now later : Time) (q : Str) (c : QueueConfiguration) (s : l.State)
      → now ≤ℤ later
      → l.get_local later s q ≡ some c
      → l.get_local now s q ≡ some c

-- The local cache and the storage.
pub record Configurations (L S : Type 0) : Type 0 where
  pub local_cache : L
  pub storage : S

-- A queue with no configuration has one with no maximum.
abbrev pub or_default : Str → Option QueueConfiguration → QueueConfiguration
or_default queue none = record { queue = queue; max_elements = pos 0 }
or_default queue (some c) = c

module _ {P : Type 0} (l : LocalCache) (storage : Storage P) where
  unfoldable pub edit_storage :
      QueueConfiguration
      → Configurations l.State storage.State
      → Configurations l.State storage.State × Result (Unit {0})
  edit_storage cfg service =
      let r = storage.edit_queue_configuration service.storage cfg in
      (record service { storage = r.0 }, r.1)

  -- A deletion is deferred to the end of the call.
  unfoldable pub edit_configuration :
      Time
      → Configurations l.State storage.State
      → Option QueueConfiguration
      → Configurations l.State storage.State × Result (Unit {0})
  unfolding edit_storage
  edit_configuration now service none = (service, ok tt)
  edit_configuration now service (some cfg) =
      let edited = edit_storage cfg service in
      let dropped = record edited.0 {
        local_cache = l.delete_local cfg.queue service.local_cache;
      } in
      if eqb_ℤ cfg.max_elements (pos 0)
      then (service, ok tt)
      else elim (l.get_local now service.local_cache cfg.queue) [
        | none ↦ edited
        | some cached ↦
            if not (eqb_ℤ cached.max_elements cfg.max_elements)
            then (dropped, edited.1)
            else (service, ok tt)
      ]

  unfoldable pub get_configuration :
      Time
      → Configurations l.State storage.State
      → Str
      → Configurations l.State storage.State × Result QueueConfiguration
  get_configuration now service queue = elim (l.get_local now service.local_cache queue) [
    | some cached ↦ (service, ok cached)
    | none ↦ elim (storage.get_queue_configuration service.storage queue) [
      | err e ↦ (service, err e)
      | panic ↦ (service, panic)
      | ok found ↦
          let config = or_default queue found in
          (
            record service { local_cache = l.set_local now queue config service.local_cache },
            ok config,
          )
    ]
  ]
