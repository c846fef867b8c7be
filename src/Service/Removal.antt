-- ===== src/Service/Removal.antt =====
-- What `Ack` and `Nack` requests leave in the memory cache and the memory storage.
use deckard.Common.{
  ℕ, ◌==◌, ◌≡◌, ◌≢◌, refl, sym, ap, subst, ◌∙◌, Bool, true, false, not, ◌&&◌, none, some, [], ◌∷◌,
  if◌then◌else◌, Str, Str_discrete, is_yes, arith, exists, keep, Bool-cases, inl, inr,
}
use deckard.Outcome.{Result, ok}
use deckard.Dtime.{Time}
use deckard.Score.{Score}
use deckard.Message.{Message}
use deckard.MemoryCache.{MemoryCache, remove}
use deckard.MemoryCache.Copies.{total, OneCopy, copies_at}
use deckard.MemoryCache.Removing.{total-remove}
use deckard.MemoryStorage.{MemoryStorage, remove_storage, ack_storage, nack_storage}
use deckard.MemoryStorage.Removal.{is_removed, remove_storage-keep}
use deckard.Queue.{Queue, remove_messages, with_storage}
use deckard.Queue.Memory.{memory_cache, memory_storage}
use deckard.Queue.Releasing.{Released, ack_message-nack_message-Released}
use deckard.Service.{Deckard, with_pool, remove_request, RemoveResponse}
use deckard.Service.Releasing.{
  AckRequest, AckResponse, ack_score, nack_score, outcome_message, after_outcome,
  remove_message_from_ack_nack, ack_request, nack_request,
}

if_true : {A : Type 0} (b : Bool) (x y : A) → b ≡ true → x ≡ (if b then x else y)
if_true b x y e = rw e refl

if_false : {A : Type 0} (b : Bool) (x y : A) → b ≡ false → y ≡ (if b then x else y)
if_false b x y e = rw e refl

module _ {P L : Type 0} (match_glob : Str → Str → Bool) (add_float : Score → Score → Score) where
  -- From the copies of each id, whether the message was processing, and the storage after its own call.
  pub record Settled (request : AckRequest) (copies : Str → Str → ℕ) (processing : Bool)
      (s : MemoryStorage P) (r : Deckard MemoryCache (MemoryStorage P) L × Result AckResponse)
      : Type 0 where
    pub removed : RemoveResponse
    pub responded :
        r.1
        ≡ ok (
            if request.remove_message
            then record { success = true; removal_response = some removed }
            else record { success = processing; removal_response = none })
    pub cached :
        (q id : Str)
        → total r.0.pool.cache q id ≡ (
            if request.remove_message
              && (is_yes (Str_discrete request.queue q) && is_yes (Str_discrete request.id id))
            then 0
            else copies q id)
    pub documents : r.0.pool.storage.docs ≡ (
        if request.remove_message
        then keep (λ e. not (is_removed request.queue (request.id ∷ []) e)) s.docs
        else s.docs)

  removal :
      (d : Deckard MemoryCache (MemoryStorage P) L) (request : AckRequest)
      → let r =
          remove_message_from_ack_nack
            (memory_cache P match_glob)
            (memory_storage P add_float)
            d
            request in
        (x : RemoveResponse) × (r.1 ≡ ok (record { success = true; removal_response = some x }))
        × (r.0.pool.cache ≡ (remove d.pool.cache request.queue (request.id ∷ [])).0)
        × (r.0.pool.storage.docs
            ≡ (remove_storage d.pool.storage request.queue (request.id ∷ [])).0.docs)
  unfolding remove_message_from_ack_nack remove_request remove_messages remove remove_storage
  removal d request = (_, refl, refl, refl)

  after_outcome-if :
      (d : Deckard MemoryCache (MemoryStorage P) L) (request : AckRequest) (result : Bool)
      → (if request.remove_message
          then remove_message_from_ack_nack
              (memory_cache P match_glob)
              (memory_storage P add_float)
              d
              request
          else (d, ok (record { success = result; removal_response = none })))
        ≡ after_outcome
            (memory_cache P match_glob)
            (memory_storage P add_float)
            request
            d
            (ok result)
  unfolding after_outcome
  after_outcome-if d request result = refl

  after_outcome-Settled :
      (d : Deckard MemoryCache (MemoryStorage P) L) (request : AckRequest) (result : Bool)
      → OneCopy d.pool.cache
      → Settled request (total d.pool.cache) result d.pool.storage (
          after_outcome
            (memory_cache P match_glob)
            (memory_storage P add_float)
            request
            d
            (ok result))
  unfolding exists
  after_outcome-Settled d request result one = elim (Bool-cases request.remove_message) [
    | inl e ↦
        let (x, responded, cached, documents) = removal d request in
        subst (Settled request (total d.pool.cache) result d.pool.storage)
          (if_true request.remove_message _ _ e ∙ after_outcome-if d request result)
          (record {
            removed = x;
            responded = responded ∙ ap ok (if_true request.remove_message _ _ e);
            cached = λ q id. ground (
              arith,
              e,
              ap (λ c. total c q id) cached,
              total-remove d.pool.cache request.queue (request.id ∷ []) q id one,
            );
            documents =
                documents
                ∙ (remove_storage-keep d.pool.storage request.queue (request.id ∷ [])).0
                ∙ if_true request.remove_message _ _ e;
          })
    | inr e ↦
        subst (Settled request (total d.pool.cache) result d.pool.storage)
          (if_false request.remove_message _ _ e ∙ after_outcome-if d request result)
          (record {
            removed = record { cache_removed = 0; storage_removed = 0 };
            responded = ap ok (if_false request.remove_message _ _ e);
            cached = λ q id. ground (arith, e);
            documents = if_false request.remove_message _ _ e;
          })
  ]

  settled :
      (d : Deckard MemoryCache (MemoryStorage P) L) (request : AckRequest) (m : Message P)
      (s : MemoryStorage P) (r : Queue MemoryCache (MemoryStorage P) × Result Bool)
      → OneCopy d.pool.cache
      → Released (with_storage s d.pool) m r
      → Settled request
          (total d.pool.cache)
          (not (copies_at d.pool.cache.processing_queues m.queue m.id == 0))
          s
          (after_outcome
            (memory_cache P match_glob)
            (memory_storage P add_float)
            request
            (with_pool r.0 d)
            r.1)
  settled d request m s r one released =
      let processing = not (copies_at d.pool.cache.processing_queues m.queue m.id == 0) in
      let (reported, gone, same, stored) = released in
      let after =
        after_outcome-Settled (with_pool r.0 d) request processing
          (λ q id. ground (arith, same q id, one q id)) in
      subst
        (λ x. Settled request (total d.pool.cache) processing s (
          after_outcome (memory_cache P match_glob) (memory_storage P add_float) request
            (with_pool r.0 d) x))
        (sym reported)
        (record {
          removed = after.removed;
          responded = after.responded;
          cached = λ q id. ground (arith, after.cached q id, same q id);
          documents =
              after.documents
              ∙ ap
                  (λ t.
                    if request.remove_message
                    then keep (λ e. not (is_removed request.queue (request.id ∷ []) e)) t.docs
                    else t.docs)
                  stored;
        })

  -- Over a memory cache with no id twice in a queue, an `Ack` or `Nack` request with a queue and an id succeeds. With a removal asked for, its
  -- response says success whether the message was processing or not, no copy of the message is left in the cache and no document
  -- with its queue and id in the storage; without one, it says whether the message was processing, and no copy is lost or made.
  pub ack_request-nack_request-Settled :
      (sub_float : Score → Score → Score) (no_payload : P) (scored_at used_at now : Time)
      (d : Deckard MemoryCache (MemoryStorage P) L) (request : AckRequest)
      → OneCopy d.pool.cache
      → request.queue ≢ []
      → request.id ≢ []
      → let acked =
          outcome_message no_payload request
            (some used_at)
            (ack_score sub_float scored_at request) in
        let nacked = outcome_message no_payload request none (nack_score request) in
        let processing =
          not (copies_at d.pool.cache.processing_queues request.queue request.id == 0) in
        Settled request
          (total d.pool.cache)
          processing
          (ack_storage add_float d.pool.storage acked).0
          (ack_request
            (memory_cache P match_glob)
            (memory_storage P add_float)
            sub_float
            no_payload
            scored_at
            used_at
            now
            d
            request)
        × Settled request (total d.pool.cache) processing (nack_storage d.pool.storage nacked).0 (
            nack_request
              (memory_cache P match_glob)
              (memory_storage P add_float)
              no_payload
              now
              d
              request)
  unfolding ack_request nack_request outcome_message
  ack_request-nack_request-Settled sub_float no_payload scored_at used_at now d request one q i =
      let acked =
        outcome_message no_payload request (some used_at) (ack_score sub_float scored_at request) in
      let nacked = outcome_message no_payload request none (nack_score request) in
      (
        settled d request acked (ack_storage add_float d.pool.storage acked).0 _ one
            (ack_message-nack_message-Released match_glob add_float now d.pool acked request.reason
              one q i).0,
        settled d request nacked (nack_storage d.pool.storage nacked).0 _ one
            (ack_message-nack_message-Released match_glob add_float now d.pool nacked request.reason
              one q i).1,
      )
