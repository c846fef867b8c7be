-- ===== src/Service.antt =====
-- internal/service/deckard_service.go: the request handlers, over the queue and the configuration service. A response that the code
-- returns beside an error is left out, as gRPC does not send it; so are tracing and logging.

pub mod Adding
pub mod Pulling
pub mod Releasing
pub mod Storing
pub mod Scores
pub mod Removal
use deckard.Common.{
  ℕ, ◌≡◌, Bool, true, false, not, Option, none, some, List, [], ◌∷◌, if◌then◌else◌, Str,
  Str_discrete, is_yes, codes,
}
use deckard.Common.Int.{ℤ, pos}
use deckard.Outcome.{Result, ok, err, panic, status_internal, invalid_client_auth}
use deckard.Dtime.{Time}
use deckard.Storage.{FindOptions, InternalFilter, QueueConfiguration}
use deckard.Interfaces.{Cache, Storage}
use deckard.Queue.{Queue, remove_messages, count, flush_queue, with_storage}
use deckard.ConfigurationService.{LocalCache, Configurations, edit_configuration, get_configuration}

-- The configuration service calls the storage that the queue calls.
pub record Deckard (C S L : Type 0) : Type 0 where
  pub pool : Queue C S
  pub local_cache : L
  pub memory_instance : Bool

abbrev pub with_pool : {C S L : Type 0} → Queue C S → Deckard C S L → Deckard C S L
with_pool pool d = record d { pool = pool }

abbrev pub configurations_of : {C S L : Type 0} → Deckard C S L → Configurations L S
configurations_of d = record { local_cache = d.local_cache; storage = d.pool.storage }

abbrev pub with_configurations :
    {C S L : Type 0} → Configurations L S → Deckard C S L → Deckard C S L
with_configurations service d = record d {
  pool = with_storage service.storage d.pool;
  local_cache = service.local_cache;
}

-- An error of a call is answered with the status `Internal`.
abbrev pub internal {ℓ} : {D A B : Type ℓ} → (A → B) → D × Result A → D × Result B
internal f (d, ok a) = (d, ok (f a))
internal f (d, err e) = (d, err status_internal)
internal f (d, panic) = (d, panic)

pub data ClientAuthType : Type 0 where
  no_client_cert request_client_cert require_any_client_cert : ClientAuthType
  verify_client_cert_if_given require_and_verify_client_cert : ClientAuthType

unfoldable pub get_client_auth_type : Str → Result ClientAuthType
get_client_auth_type client_auth =
    if is_yes (Str_discrete client_auth (codes "NoClientCert"))
    then ok no_client_cert
    else if is_yes (Str_discrete client_auth (codes "RequestClientCert"))
    then ok request_client_cert
    else if is_yes (Str_discrete client_auth (codes "RequireAnyClientCert"))
    then ok require_any_client_cert
    else if is_yes (Str_discrete client_auth (codes "VerifyClientCertIfGiven"))
    then ok verify_client_cert_if_given
    else if is_yes (Str_discrete client_auth (codes "RequireAndVerifyClientCert"))
    then ok require_and_verify_client_cert
    else err invalid_client_auth

-- A request without a configuration has none.
pub record EditQueueRequest : Type 0 where
  pub queue : Str
  pub configuration : Option ℤ

pub record EditQueueResponse : Type 0 where
  pub queue : Str
  pub success : Bool

pub record GetQueueResponse : Type 0 where
  pub queue : Str
  pub max_elements : ℤ

pub record RemoveRequest : Type 0 where
  pub ids : List Str
  pub queue : Str

pub record RemoveResponse : Type 0 where
  pub cache_removed : ℕ
  pub storage_removed : ℕ

abbrev pub queue_filter : Str → Option (List Str) → InternalFilter
queue_filter queue ids = record {
  internal_id_breakpoint_gt = [];
  internal_id_breakpoint_lte = [];
  ids = ids;
  queue = queue;
  queue_prefix = [];
  expiry_date = none;
}

module _ {P : Type 0} (cache : Cache P) (storage : Storage P) where
  unfoldable pub remove_request :
      {L : Type 0}
      → Deckard cache.State storage.State L
      → RemoveRequest
      → Deckard cache.State storage.State L × Result RemoveResponse
  unfolding remove_messages
  remove_request d request = elim request.ids [
    | [] ↦ (d, ok (record { cache_removed = 0; storage_removed = 0 }))
    | id ∷ ids ↦
        let r = remove_messages cache storage d.pool request.queue (codes "REQUEST") request.ids in
        internal (λ u. record { cache_removed = r.1.0; storage_removed = r.1.1 })
          (with_pool r.0 d, r.1.2)
  ]

  unfoldable pub count_request :
      {L : Type 0}
      → Deckard cache.State storage.State L
      → Str
      → Deckard cache.State storage.State L × Result ℕ
  unfolding count
  count_request d queue =
      internal (λ n. n)
        (
          d,
          count cache storage d.pool (
              some (record {
                sort = none;
                limit = pos 0;
                internal_filter = some (queue_filter queue none);
                retry = false;
              })),
        )

  -- Only a memory instance is flushed.
  unfoldable pub flush_request :
      {L : Type 0}
      → Deckard cache.State storage.State L
      → Deckard cache.State storage.State L × Result Bool
  unfolding flush_queue
  flush_request d =
      let r = flush_queue cache storage d.pool in
      if d.memory_instance
      then internal (λ success. success) (with_pool r.0 d, r.1)
      else (d, ok false)

  module _ (l : LocalCache) where
    unfoldable pub edit_queue :
        Time
        → Deckard cache.State storage.State l.State
        → EditQueueRequest
        → Deckard cache.State storage.State l.State × Result EditQueueResponse
    unfolding edit_configuration
    edit_queue now d request = elim request.configuration [
      | none ↦ (d, ok (record { queue = request.queue; success = false }))
      | some max_elements ↦
          let r =
            edit_configuration l storage now (configurations_of d)
              (some (record { queue = request.queue; max_elements = max_elements })) in
          internal (λ u. record { queue = request.queue; success = true })
            (with_configurations r.0 d, r.1)
    ]

    unfoldable pub get_queue :
        Time
        → Deckard cache.State storage.State l.State
        → Str
        → Deckard cache.State storage.State l.State × Result GetQueueResponse
    unfolding get_configuration
    get_queue now d queue =
        let r = get_configuration l storage now (configurations_of d) queue in
        internal (λ c. record { queue = c.queue; max_elements = c.max_elements })
          (with_configurations r.0 d, r.1)
