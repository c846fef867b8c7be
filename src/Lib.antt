-- ===== src/Lib.antt =====
-- Deckard, a cyclic priority queue: a model of its request handlers, its queue and its housekeeper, of the in-memory cache and
-- storage and the Redis cache that they call, and of the parts that these use (internal/service, internal/queue, internal/audit, internal/dtime).
--
-- A message stands once in the storage (internal/queue/storage), with all its data, and once in the cache
-- (internal/queue/cache), where it moves between the pools of its queue: primary, processing, locked after
-- a success, locked after a failure. The queue (internal/queue/queue.go) calls both, and the service calls the queue.
--
-- Files, and what they are about:
--   Common, Common/*    shared notation: Boolean tests, lists, Go's maps and int64 values
--   Outcome             errors and panics as values
--   Dtime               internal/dtime/deckard_time.go
--   Score               internal/queue/score/score.go
--   Message             internal/queue/message/*.go, internal/queue/pool/pool.go
--   Strconv             the decimal texts that internal/queue/utils/primitive_conversion.go reads
--   Entries             the linked lists of internal/queue/cache/memory_cache.go: insertEntry, removeEntry
--   MemoryCache         its state and operations; Pull, Release and Insert hold PullMessages, UnlockMessages
--                       with TimeoutMessages, and Insert; the other children hold proofs: Moves and Unlocking what
--                       goes from pool to pool, and Steps the state machine of all calls
--   Storage             internal/queue/storage/storage.go, internal/queue/configuration
--   MemoryStorage       internal/queue/storage/memory_storage.go: the writes, and in Query the reads; Wanted says
--                       apart from the code what a search asks for
--   Interfaces          the interfaces of internal/queue/cache/cache.go and internal/queue/storage/storage.go
--   Queue               internal/queue/queue.go over any cache and storage; Pull holds Pull, Memory the memory cache
--                       and storage as instances; the other children hold proofs
--   Housekeeper         internal/queue/queue_housekeeper.go; Recovery, Expiry and Exceeding hold its jobs on all
--                       messages
--   Redis               the commands of a Redis server, as an interface with its laws
--   RedisCache          internal/queue/cache/redis_cache.go; Keys holds its keys, Lists ListQueues and Flush, Scripts
--                       internal/queue/cache/redis_cache_scripts.go; Calls the cache as the queue calls
--                       it; the other children hold proofs, and Steps its state machine
--   ConfigurationService internal/queue/queue_configuration_service.go; Coherence holds proofs
--   Service             internal/service/deckard_service.go: the simple requests; Adding, Pulling and Releasing hold Add, Pull with
--                       GetById, and Ack with Nack; the other children hold proofs
--   Audit               internal/audit/audit.go: the channel of entries and its sender; Sending holds proofs
--   Tests               runs, and the theorems at concrete inputs
--
-- Operations are named as in the source, in snake case: MemoryCache.make_available is
-- (*MemoryCache).MakeAvailable. A method is a function from the state and its arguments to the new state
-- and its result. Each method of the cache holds the cache's mutex throughout, so that calls are steps.
--
-- Strings are lists of bytes. A Go map is an association list, and a loop over it runs in the order of
-- the list; the theorems hold for every list, so for every order. A time is an integer of nanoseconds since
-- the Unix epoch, and every reading of the clock is an argument; a search reads it
-- twice for each document. Sums of int64 values wrap. A float64 is
-- an integer of units of 2^-1074, which every finite one is; NaN and the infinities are left out, and the
-- sum of two floats is an argument of the one operation that needs it. An element that is removed from a
-- `container/list` list while a loop stands on it has no next element, so the loop ends there.
--
-- No loop needs fuel but the two of Strconv and Score that work on the digits and the size of one number;
-- the fuel there is the number itself, and eleven doublings, which take 2^53 to the bound of int64; and the
-- cutting of a list in parts for Redis, where it is the length of the list.
--
-- A script that fails in Redis keeps what it wrote: Lua's `unpack` fails for 8000 values or more, and the theorems on the Redis cache
-- are about pulls of fewer. Its other calls ask for at most 1000 elements or send at most 4000. The client may run a script
-- again after a lost reply, any number of times, with no other client's script in between.
--
-- What is not under this repository is a parameter: a Redis server with its client (Redis) and the go-cache library (LocalCache in
-- ConfigurationService) are records of operations with a record of laws, which a concrete one in Tests meets; the glob library's
-- match is an argument of list_queues, sort.Slice one of Pull, AddDate one of Add, the difference of two floats one of Ack, and
-- the order in which a map of groups is read one of the calls that read it.
--
-- Not modelled: the cluster mode, the connection and the Close of the Redis cache, the MongoDB storage, the metrics job of
-- the housekeeper, the server's setup and TLS, the requests of the auditor to Elasticsearch, metrics, configuration, logging, tracing and process
-- start. Stored messages are values, though the source shares them with the caller by pointer. Calls are steps: two
-- requests at once are some order of their calls of the cache and the storage.
pub mod Common
pub mod Outcome
pub mod Dtime
pub mod Score
pub mod Message
pub mod Entries
pub mod MemoryCache
pub mod Strconv
pub mod Storage
pub mod MemoryStorage
pub mod Interfaces
pub mod Queue
pub mod Housekeeper
pub mod Redis
pub mod RedisCache
pub mod ConfigurationService
pub mod Service
pub mod Audit
mod Tests
