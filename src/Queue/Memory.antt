-- ===== src/Queue/Memory.antt =====
-- The memory cache and the memory storage, as the queue calls them.
use deckard.Common.{Bool, Str}
use deckard.Score.{Score}
use deckard.MemoryCache.{
  MemoryCache, make_available, is_processing, lock_message, list_queues, remove, flush, get, set,
}
use deckard.MemoryCache.Pull.{pull_messages}
use deckard.MemoryCache.Release.{unlock_messages, timeout_messages}
use deckard.MemoryCache.Insert.{insert_cache}
use deckard.MemoryStorage.{
  MemoryStorage, insert_storage, remove_storage, ack_storage, nack_storage, flush_storage,
  get_string_internal_id, edit_queue_configuration, get_queue_configuration,
  list_queue_configurations,
}
use deckard.MemoryStorage.Query.{find, count_storage, list_queue_names, list_queue_prefixes}
use deckard.Interfaces.{Cache, Storage}

-- `match_glob` is the glob library's match.
abbrev pub memory_cache : (P : Type 0) → (Str → Str → Bool) → Cache P
memory_cache P match_glob = record {
  State = MemoryCache;
  make_available = make_available;
  is_processing = is_processing;
  pull_messages = pull_messages;
  timeout_messages = timeout_messages;
  lock_message = lock_message;
  unlock_messages = unlock_messages;
  list_queues = list_queues match_glob;
  insert_cache = insert_cache;
  remove = remove;
  flush = flush;
  get = get;
  set = set;
}

-- `add_float` is the sum of two float64 values.
abbrev pub memory_storage : (P : Type 0) → (Score → Score → Score) → Storage P
memory_storage P add_float = record {
  State = MemoryStorage P;
  insert_storage = insert_storage;
  find = find;
  remove_storage = remove_storage;
  ack_storage = ack_storage add_float;
  nack_storage = nack_storage;
  count_storage = count_storage;
  flush_storage = flush_storage;
  get_string_internal_id = get_string_internal_id;
  list_queue_names = list_queue_names;
  list_queue_prefixes = list_queue_prefixes;
  edit_queue_configuration = edit_queue_configuration;
  get_queue_configuration = get_queue_configuration;
  list_queue_configurations = list_queue_configurations;
}
