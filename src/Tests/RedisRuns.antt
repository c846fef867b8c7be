-- ===== src/Tests/RedisRuns.antt =====
-- The Redis cache, on the server of the tests.
use deckard.Common.{
  ℕ, ◌≡◌, refl, ◌&&◌, none, some, [], ◌∷◌, Str, Str_discrete, codes, is_yes, map, keep, exists,
  arith, ite, ◌≤◌, if◌then◌else◌,
}
use deckard.Common.Int.{pos}
use deckard.Message.{Message, primary_pool}
use deckard.MemoryCache.{MemoryCache, lock_ack, lock_nack, index, new_memory_cache, make_available}
use deckard.RedisCache.{insert_redis, pull_messages_redis, make_available_redis}
use deckard.RedisCache.Naming.{Slot, active, processing, locked, key, same_slot}
use deckard.RedisCache.Keys.{is_valid_queue_name}
use deckard.RedisCache.Keys
use deckard.Common.Maps.{insert, lookup}
use deckard.RedisCache.Lists.{queues_of_keys, search_pattern, uniq_strings, has_pool_suffix}
use deckard.RedisCache.Parsing.{how_often, is_tail, how_often-queues_of_keys}
use deckard.RedisCache.Places.{places, OnePlace, Valid, at, at-zadd}
use deckard.RedisCache.Steps.{pulls, here, moves, inserts, Move-Same, Reach-OnePlace}
use deckard.RedisCache.Agreement.{Agree, make_available-make_available_redis}
use deckard.Tests.RedisServer.{Server, add_pairs, server, server_laws, no_members}
use deckard.Entries.{create_entry, insert_entry}
use deckard.Entries.Counts.{copies}
use deckard.MemoryCache.Copies.{copies_at, total, OneCopy, copies_at-enter}
use deckard.Tests.CacheRuns.{message}

abbrev orders : Str
orders = codes "orders"

abbrev odd : Str
odd = codes "odd:tmp"

-- A queue whose own name ends like a processing pool is not listed.
how_often-queues_of_keys_example :
    how_often orders (
      queues_of_keys
        (codes "p")
        primary_pool
        (map (λ q. search_pattern (codes "p") q primary_pool) (orders ∷ odd ∷ orders ∷ [])))
    ≡ 1
unfolding exists Str_discrete is_tail
how_often-queues_of_keys_example =
    how_often-queues_of_keys (codes "p") primary_pool (orders ∷ odd ∷ orders ∷ []) orders

odd_run :
    queues_of_keys (codes "p") primary_pool (search_pattern (codes "p") odd primary_pool ∷ []) ≡ []
unfolding queues_of_keys search_pattern Str_discrete keep uniq_strings has_pool_suffix
odd_run = refl

abbrev filled : Server
filled =
    (insert_redis server [] no_members orders
      (message orders (codes "b") (pos 7) ∷ message orders (codes "a") (pos 3) ∷ [])).0

none-OnePlace : OnePlace server server_laws [] no_members
unfolding places at
none-OnePlace q id v = ground arith

filled-OnePlace : OnePlace server server_laws [] filled
filled-OnePlace = Reach-OnePlace server server_laws [] ℕ none-OnePlace (
    inserts here orders
      (message orders (codes "b") (pos 7) ∷ message orders (codes "a") (pos 3) ∷ []))

abbrev pulled : Server
pulled = (pull_messages_redis server [] (pos 5) filled orders (pos 1) none none (pos 0)).0

filled_run : at server server_laws [] filled orders active (codes "a") ≡ some (pos 3)
unfolding at insert_redis Str_discrete add_pairs Keys.active_pool key
filled_run = refl

Reach-OnePlace_example : places server server_laws [] pulled orders (codes "a") ≤ 1
unfolding is_valid_queue_name
Reach-OnePlace_example =
    Reach-OnePlace server server_laws [] ℕ none-OnePlace
      (moves
        (inserts here orders
          (message orders (codes "b") (pos 7) ∷ message orders (codes "a") (pos 3) ∷ []))
        (pulls filled (pos 5) orders 1 none none (pos 0) (omega arith) (omega arith)))
      orders (codes "a") refl

Move-Same_example :
    places server server_laws [] pulled orders (codes "a")
    ≡ places server server_laws [] filled orders (codes "a")
unfolding is_valid_queue_name
Move-Same_example =
    Move-Same server server_laws [] ℕ
      (pulls filled (pos 5) orders 1 none none (pos 0) (omega arith) (omega arith)) filled-OnePlace
      orders (codes "a") refl

-- Both caches hold one message that is being processed.
abbrev taken : Message ℕ
taken = message orders (codes "a") (pos 3)

abbrev held : MemoryCache
held = record new_memory_cache {
  processing_queues = insert orders (insert_entry (create_entry taken) (index [] orders)).0 [];
}

abbrev held_redis : Server
held_redis = (server.zadd (key [] orders processing) ((pos 3, codes "a") ∷ []) no_members).0

at-held :
    (k : Str) (b : Slot) (id : Str)
    → Valid k
    → at server server_laws [] held_redis k b id ≡ (
        if is_yes (Str_discrete orders k) && same_slot processing b
        then (if is_yes (Str_discrete (codes "a") id) then some (pos 3) else none)
        else none)
unfolding at is_valid_queue_name
at-held k b id w =
    at-zadd server server_laws [] orders k processing b ((pos 3, codes "a") ∷ []) id no_members refl
      w

copies-held :
    (k id : Str)
    → copies_at held.processing_queues k id
      ≡ ite (Str_discrete orders k) (ite (Str_discrete (codes "a") id) 1 0) 0
unfolding copies_at lookup copies new_memory_cache create_entry
copies-held k id = copies_at-enter orders (create_entry taken) [] k id

held-Agree : Agree server server_laws [] held held_redis
unfolding copies_at lookup new_memory_cache copies
held-Agree = record {
  primary = λ k id w. rw (at-held k active id w) (ground arith);
  in_process = λ k id w. rw (at-held k processing id w, copies-held k id) (ground arith);
  acked = λ k id w. rw (at-held k (locked lock_ack) id w) (ground arith);
  nacked = λ k id w. rw (at-held k (locked lock_nack) id w) (ground arith);
}

held-OneCopy : OneCopy held
unfolding total copies_at lookup new_memory_cache copies
held-OneCopy k id = rw (copies-held k id) (ground arith)

make_available-make_available_redis_example :
    ((make_available held taken).1 ≡ (make_available_redis server [] held_redis taken).1)
    × Agree server server_laws []
        (make_available held taken).0
        (make_available_redis server [] held_redis taken).0
unfolding is_valid_queue_name
make_available-make_available_redis_example =
    make_available-make_available_redis server server_laws [] held held_redis taken
      (λ A script s. refl) held-OneCopy held-Agree refl
