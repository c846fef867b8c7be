-- ===== src/RedisCache/Calls.antt =====
-- The Redis cache, as the queue and the housekeeper call it.
use deckard.Common.{Bool, Str}
use deckard.Outcome.{Error}
use deckard.Interfaces.{Cache}
use deckard.Redis.{Redis}
use deckard.RedisCache.{
  make_available_redis, is_processing_redis, pull_messages_redis, timeout_messages_redis,
  lock_message_redis, unlock_messages_redis, insert_redis, remove_redis, get_redis, set_redis,
}
use deckard.RedisCache.Lists.{list_queues_redis, flush_redis}

-- The first reading of the clock is that of a pull.
abbrev pub redis_cache : (P : Type 0) (r : Redis) → Str → (Error → Bool) → Cache P
redis_cache P r prefix crosses_slot = record {
  State = r.State;
  make_available = make_available_redis r prefix;
  is_processing = is_processing_redis r prefix;
  pull_messages =
      λ clock s q n lo hi deadline. pull_messages_redis r prefix (clock 0) s q n lo hi deadline;
  timeout_messages = timeout_messages_redis r prefix;
  lock_message = lock_message_redis r prefix;
  unlock_messages = unlock_messages_redis r prefix;
  list_queues = list_queues_redis r prefix;
  insert_cache = insert_redis r prefix;
  remove = remove_redis r prefix;
  flush = flush_redis r prefix crosses_slot;
  get = get_redis r prefix;
  set = set_redis r prefix;
}
