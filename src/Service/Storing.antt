-- ===== src/Service/Storing.antt =====
-- What `Add` leaves in the memory cache and the memory storage.
use deckard.Common.{
  ℕ, suc, ◌+◌, ◌^◌, ◌<◌, ◌≡◌, ◌≢◌, refl, sym, ap, subst, ◌∙◌, Bool, ◌&&◌, List, [], ◌∷◌,
  if◌then◌else◌, Str, Str_discrete, is_yes, arith, exists, length, All,
}
use deckard.Common.Maps.{Map}
use mathlib.Core.List.{Perm}
use deckard.Outcome.{Result, ok}
use deckard.Dtime.{Time}
use deckard.Score.{Score}
use deckard.Message.{Message}
use deckard.MemoryCache.{MemoryCache}
use deckard.MemoryCache.Copies.{total, OneCopy}
use deckard.MemoryCache.Inserting.{names}
use deckard.MemoryStorage.{MemoryStorage, insert_storage}
use deckard.MemoryStorage.Stored.{Stored, Valid, insert_storage-Stored}
use deckard.Interfaces.{Cache, Storage}
use deckard.Queue.{add_messages_to_storage, add_messages_to_cache, with_storage}
use deckard.Queue.Memory.{memory_cache, memory_storage}
use deckard.Queue.Adding.{add_messages_to_cache-Added}
use deckard.Service.{Deckard, with_pool}
use deckard.Service.Adding.{
  AddMessage, AddResponse, to_message, to_messages, add_stored, add_request,
}

module _ {P : Type 0} where
  abbrev pub Acceptable : AddMessage P → Type 0
  Acceptable m = (m.queue ≢ []) × (m.id ≢ [])

  -- One of the request's messages has the queue and the id.
  unfoldable pub requested : List (AddMessage P) → Str → Str → Bool
  unfolding exists
  requested ms q id =
      exists (λ m. is_yes (Str_discrete m.queue q) && is_yes (Str_discrete m.id id)) ms

  module _ (add_century : Time → Time) (clock : ℕ → Time × Time) where
    names-to_messages :
        (i : ℕ) (ms : List (AddMessage P)) (q id : Str)
        → names (to_messages add_century clock i ms) q id ≡ requested ms q id
    unfolding to_messages names requested exists to_message
    names-to_messages i [] q id = refl
    names-to_messages i (m ∷ ms) q id = ground (arith, names-to_messages (suc i) ms q id)

    length-to_messages :
        (i : ℕ) (ms : List (AddMessage P)) → length (to_messages add_century clock i ms) ≡ length ms
    unfolding to_messages
    length-to_messages i [] = refl
    length-to_messages i (m ∷ ms) = ap suc (length-to_messages (suc i) ms)

    to_messages-Valid :
        (i : ℕ) (ms : List (AddMessage P))
        → All Acceptable ms
        → All Valid (to_messages add_century clock i ms)
    unfolding to_messages to_message
    to_messages-Valid i [] a = tt
    to_messages-Valid i (m ∷ ms) a = (a.0, to_messages-Valid (suc i) ms a.1)

module _ {P L : Type 0} (cache : Cache P) (storage : Storage P) where
  add_request-ok :
      (order : Map (List (Message P)) → Map (List (Message P))) (add_century : Time → Time)
      (clock : ℕ → Time × Time) (now : Time) (d : Deckard cache.State storage.State L)
      (request : List (AddMessage P)) (new old n : ℕ)
      → let ms = to_messages add_century clock 0 request in
        let r = add_messages_to_storage cache storage now d.pool ms in
        let c = add_messages_to_cache cache storage order r.0 ms in
        r.1 ≡ ok (new, old)
        → c.1 ≡ ok n
        → (with_pool c.0 d, ok (record { created_count = new; updated_count = old }))
          ≡ add_request cache storage order add_century clock now d request
  unfolding add_request add_stored
  add_request-ok order add_century clock now d request new old n e f = ground (arith, e, f)

module _ {P L : Type 0} (match_glob : Str → Str → Bool) (add_float : Score → Score → Score)
    (order : Map (List (Message P)) → Map (List (Message P))) (add_century : Time → Time)
    (clock : ℕ → Time × Time) (now : Time) where
  -- The response, what the storage holds and what the cache holds.
  pub record Entered (d : Deckard MemoryCache (MemoryStorage P) L) (n : ℕ)
      (request : List (AddMessage P))
      (r : Deckard MemoryCache (MemoryStorage P) L × Result AddResponse) : Type 0 where
    pub created : ℕ
    pub updated : ℕ
    pub responded : r.1 ≡ ok (record { created_count = created; updated_count = updated })
    pub all : created + updated ≡ length request
    pub stored : Stored r.0.pool.storage (n + created)
    pub documents : length r.0.pool.storage.docs ≡ length d.pool.storage.docs + created
    pub cached :
        (q id : Str)
        → total r.0.pool.cache q id
          ≡ (if requested request q id then 1 else total d.pool.cache q id)

  -- Over a well-formed memory storage and a memory cache with no id twice in a queue, an `Add` request whose messages all have a
  -- queue and an id succeeds, whatever order the runtime gives their queues: the response counts the messages
  -- that are new and those that update a document, the storage has as many more documents as are new, and
  -- afterwards each message's id stands exactly once in the pools of its queue and every other id as often as before.
  pub add_request-Entered :
      (d : Deckard MemoryCache (MemoryStorage P) L) (n : ℕ) (request : List (AddMessage P))
      → ((groups : Map (List (Message P))) → Perm (order groups) groups)
      → All Acceptable request
      → n + length request < 2 ^ 63
      → Stored d.pool.storage n
      → OneCopy d.pool.cache
      → Entered d n request (
          add_request
            (memory_cache P match_glob)
            (memory_storage P add_float)
            order
            add_century
            clock
            now
            d
            request)
  unfolding add_request add_messages_to_storage add_stored add_messages_to_cache
  add_request-Entered d n request permutes valid bound h one =
      let ms = to_messages add_century clock 0 request in
      let len = length-to_messages add_century clock 0 request in
      let (new, old, reported, sum, stored, documents) =
        insert_storage-Stored now ms d.pool.storage n
          (to_messages-Valid add_century clock 0 request valid) (omega (arith, len)) h in
      let pool = with_storage (insert_storage now d.pool.storage ms).0 d.pool in
      let added =
        add_messages_to_cache-Added match_glob (memory_storage P add_float) order [] pool ms
          permutes one in
      let shape =
        add_request-ok (memory_cache P match_glob) (memory_storage P add_float) order add_century
          clock now d request new old added.0 reported (added.1 ∙ ap ok (omega arith)) in
      subst (Entered d n request) shape (record {
        created = new;
        updated = old;
        responded = refl;
        all = omega (arith, sum, len);
        stored = subst (λ s. Stored s (n + new)) (sym added.3) stored;
        documents = ap (λ s. length s.docs) added.3 ∙ documents;
        cached = λ q id.
            ground (arith, added.4 q id, names-to_messages add_century clock 0 request q id);
      })
