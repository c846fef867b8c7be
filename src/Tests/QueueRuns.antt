-- ===== src/Tests/QueueRuns.antt =====
-- The queue over the memory cache and the memory storage.
use deckard.Common.{
  ℕ, ◌≡◌, refl, Bool, true, false, none, some, [], ◌∷◌, Str, Str_discrete, codes, take,
}
use mathlib.Core.List.Perm
use deckard.Common.Int.{ℤ, pos, ◌+ℤ◌}
use deckard.Common.Maps.{lookup, insert}
use deckard.Message.{Message}
use deckard.MemoryCache.{MemoryCache, new_memory_cache}
use deckard.MemoryStorage.{MemoryStorage, ack_storage, nack_storage}
use deckard.MemoryCache.Insert.{insert_cache}
use deckard.MemoryStorage.Query.{find}
use deckard.MemoryCache.Pull.{pull_messages}
use deckard.MemoryCache.Inserting.{names}
use deckard.Queue.{
  Queue, outcome_entry, signal_ack, signal_nack, ack_message, nack_message, with_storage,
  add_messages_to_cache_with_audit_reason,
}
use deckard.Queue.Pull.{pull, not_found_ids}
use deckard.Queue.Memory.{memory_cache, memory_storage}
use deckard.Queue.Audit.{AuditedOnce, ack_message-nack_message-AuditedOnce}
use deckard.Queue.Releasing.{Released, ack_message-nack_message-Released}
use deckard.Queue.Adding.{Added, add_messages_to_cache-Added}
use deckard.Queue.Missing.{left, pull-left}
use deckard.MemoryCache.Steps.{Reach, fresh, next, inserts, pulls, Reach-Inv}

abbrev pub equal_glob : Str → Str → Bool
equal_glob s t = true

abbrev message : Str → Message ℕ
message id = record {
  id = id;
  description = [];
  queue = codes "orders";
  expiry_date = pos 2000000000000000000;
  timeless = false;
  metadata = [];
  payload = 0;
  string_payload = [];
  lock_ms = pos 0;
  internal_id = none;
  score = pos 3;
  last_usage = none;
  breakpoint = [];
  last_score_subtract = pos 0;
  total_score_subtract = pos 0;
  usage_count = pos 0;
  queue_prefix = codes "orders";
  queue_suffix = [];
  diagnostics = none;
}

abbrev m : Message ℕ
m = message (codes "a")

abbrev pub now : ℤ
now = pos 1700000000000000000

abbrev pub empty : Queue MemoryCache (MemoryStorage ℕ)
empty = record {
  cache = record {
    queues = [];
    processing_queues = [];
    lock_ack_queues = [];
    lock_nack_queues = [];
    cache_keys = [];
  };
  storage = record { docs = []; configurations = []; internal_counter = pos 0 };
  audited = [];
}

pub empty-Reach : Reach ℕ empty.cache
unfolding new_memory_cache
empty-Reach = fresh

add_messages_to_cache-Added_example :
    Added equal_glob
      (memory_storage ℕ ◌+ℤ◌)
      empty
      0
      (add_messages_to_cache_with_audit_reason
        (memory_cache ℕ equal_glob)
        (memory_storage ℕ ◌+ℤ◌)
        (λ groups. groups)
        []
        empty
        (m ∷ []))
      (names (m ∷ []))
add_messages_to_cache-Added_example =
    add_messages_to_cache-Added equal_glob (memory_storage ℕ ◌+ℤ◌) (λ groups. groups) [] empty
      (m ∷ []) (λ groups. Perm.refl groups) (Reach-Inv empty-Reach).one_copy

-- With the message processing.
abbrev added_one : MemoryCache
added_one = (insert_cache new_memory_cache (codes "orders") (m ∷ [])).0

abbrev pub busy : Queue MemoryCache (MemoryStorage ℕ)
busy = record empty {
  cache = (pull_messages (λ i. now) added_one (codes "orders") (pos 1) none none (pos 0)).0;
}

pub busy-Reach : Reach ℕ busy.cache
busy-Reach =
    next (next fresh (inserts new_memory_cache (codes "orders") (m ∷ [])))
      (pulls added_one (λ i. now) (codes "orders") (pos 1) none none (pos 0))

ack_message-nack_message-AuditedOnce_example :
    AuditedOnce []
      (outcome_entry signal_ack [] m)
      (ack_message (memory_cache ℕ equal_glob) (memory_storage ℕ ◌+ℤ◌) now busy (some m) [])
    × AuditedOnce []
        (outcome_entry signal_nack [] m)
        (nack_message (memory_cache ℕ equal_glob) (memory_storage ℕ ◌+ℤ◌) now busy (some m) [])
ack_message-nack_message-AuditedOnce_example =
    ack_message-nack_message-AuditedOnce (memory_cache ℕ equal_glob) (memory_storage ℕ ◌+ℤ◌) now
      busy m []

ack_message-nack_message-Released_example :
    Released
      (with_storage (ack_storage ◌+ℤ◌ busy.storage m).0 busy)
      m
      (ack_message (memory_cache ℕ equal_glob) (memory_storage ℕ ◌+ℤ◌) now busy (some m) [])
    × Released
        (with_storage (nack_storage busy.storage m).0 busy)
        m
        (nack_message (memory_cache ℕ equal_glob) (memory_storage ℕ ◌+ℤ◌) now busy (some m) [])
ack_message-nack_message-Released_example =
    ack_message-nack_message-Released equal_glob ◌+ℤ◌ now busy m [] (Reach-Inv busy-Reach).one_copy
      (λ e. cc) (λ e. cc)

-- A cache that has a message the storage does not have.
abbrev stale : Queue MemoryCache (MemoryStorage ℕ)
stale = record empty {
  cache = record empty.cache {
    queues =
        (codes "orders", some (record { score = pos 3; id = codes "a"; lock_until = pos 0 } ∷ []))
        ∷ [];
  };
}

pull-left_example :
    (pull
      (memory_cache ℕ equal_glob)
      (memory_storage ℕ ◌+ℤ◌)
      (λ ms. ms)
      (λ i. now)
      (λ i. (now, now))
      (λ i. (now, now))
      stale
      (codes "orders")
      (pos 1)
      none
      none
      (pos 0)).0
    ≡ left
        (memory_cache ℕ equal_glob)
        (memory_storage ℕ ◌+ℤ◌)
        (λ ms. ms)
        (λ ms. Perm.refl ms)
        (pull_messages (λ i. now) stale.cache (codes "orders") (pos 1) none none (pos 0)).0
        stale
        (codes "orders")
        (not_found_ids {P = ℕ} (codes "a" ∷ []) [])
unfolding pull_messages pull lookup insert Str_discrete find take
pull-left_example =
    pull-left (memory_cache ℕ equal_glob) (memory_storage ℕ ◌+ℤ◌) (λ ms. ms) (λ ms. Perm.refl ms)
      (λ i. now) (λ i. (now, now)) (λ i. (now, now)) stale (codes "orders") (pos 1) none none
      (pos 0) (pull_messages (λ i. now) stale.cache (codes "orders") (pos 1) none none (pos 0)).0
      (codes "a" ∷ []) none refl refl
