-- ===== src/MemoryCache/Insert.antt =====
-- `Insert` of internal/queue/cache/memory_cache.go.
use deckard.Common.{not, List, [], ◌∷◌, if◌then◌else◌, Str, Str_discrete, map, keep, exists, is_yes}
use deckard.Common.Maps.{Map, insert}
use deckard.Outcome.{Result, ok, err, invalid_queue_to_insert}
use deckard.Message.{Message}
use deckard.Entries.{Pool, create_entry, insert_entry}
use deckard.MemoryCache.{MemoryCache, index, is_present_on_any_pool}

module _ {P : Type 0} where
  unfoldable pub insert_messages : List (Message P) → Map Pool → Map Pool
  unfolding create_entry insert_entry
  insert_messages [] queues = queues
  insert_messages (m ∷ ms) queues =
      insert_messages ms
        (insert m.queue (insert_entry (create_entry m) (index queues m.queue)).0 queues)

  -- The messages that no pool of the queue has.
  unfoldable pub insertions : MemoryCache → Str → List (Message P) → List (Message P)
  unfolding is_present_on_any_pool keep
  insertions cache queue messages =
      keep (λ m. not (is_present_on_any_pool cache queue m.id)) messages

  unfoldable pub insert_cache :
      MemoryCache → Str → List (Message P) → MemoryCache × Result (List Str)
  unfolding insertions insert_messages exists
  insert_cache cache queue messages =
      if exists (λ m. not (is_yes (Str_discrete m.queue queue))) messages
      then (cache, err invalid_queue_to_insert)
      else (
        record cache { queues = insert_messages (insertions cache queue messages) cache.queues },
        ok (map (λ m. m.id) (insertions cache queue messages)),
      )
