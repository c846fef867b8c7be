-- ===== src/RedisCache/Keys.antt =====
-- The names of the keys of internal/queue/cache/redis_cache.go, and what `ListQueues` reads back from them.
use deckard.Common.{
  ◌==◌, Bool, true, false, not, ◌||◌, Option, none, some, [], ◌∷◌, ◌++◌, if◌then◌else◌, Str,
  Str_discrete, is_yes, exists, codes,
}
use deckard.MemoryCache.{LockType, lock_ack, lock_nack}

-- No brace of a cluster hash tag.
unfoldable pub is_valid_queue_name : Str → Bool
unfolding exists
is_valid_queue_name queue = not (exists (λ c. c == b'{' || c == b'}') queue)

-- `keyPrefix` of a cache, or the default.
unfoldable pub configured_prefix : Str → Str
configured_prefix [] = codes "deckard_v1"
configured_prefix (c ∷ prefix) = c ∷ prefix

unfoldable pub pool_prefix : Str → Str
unfolding configured_prefix
pool_prefix prefix = configured_prefix prefix ++ codes ":queue:"

abbrev pub processing_pool_suffix : Str
processing_pool_suffix = codes ":tmp"

abbrev pub lock_suffix : LockType → Str
lock_suffix lock_ack = codes ":lock_ack"
lock_suffix lock_nack = codes ":lock_nack"

abbrev pub score_suffix : Str
score_suffix = codes ":score"

unfoldable pub active_pool : Str → Str → Str
unfolding pool_prefix
active_pool prefix queue = pool_prefix prefix ++ (b'{' ∷ (queue ++ (b'}' ∷ [])))

unfoldable pub processing_pool : Str → Str → Str
unfolding pool_prefix
processing_pool prefix queue =
    pool_prefix prefix ++ (b'{' ∷ (queue ++ (b'}' ∷ processing_pool_suffix)))

unfoldable pub lock_pool : Str → Str → LockType → Str
unfolding pool_prefix
lock_pool prefix queue lock_type =
    pool_prefix prefix ++ (b'{' ∷ (queue ++ (b'}' ∷ lock_suffix lock_type)))

unfoldable pub lock_pool_score : Str → Str → LockType → Str
unfolding pool_prefix
lock_pool_score prefix queue lock_type =
    pool_prefix prefix ++ (b'{' ∷ (queue ++ (b'}' ∷ (lock_suffix lock_type ++ score_suffix))))

unfoldable pub general_cache_key : Str → Str → Str
unfolding configured_prefix
general_cache_key prefix key = configured_prefix prefix ++ (b':' ∷ b'{' ∷ (key ++ (b'}' ∷ [])))

-- What follows the prefix, if the text begins with it.
unfoldable pub strip_prefix : Str → Str → Option Str
strip_prefix [] s = some s
strip_prefix (c ∷ p) [] = none
strip_prefix (c ∷ p) (d ∷ s) = let rest = strip_prefix p s in if c == d then rest else none

-- `strings.TrimPrefix`
unfoldable pub trim_prefix : Str → Str → Str
unfolding strip_prefix
trim_prefix p s = elim (strip_prefix p s) [ none ↦ s | some t ↦ t ]

-- What stands before the suffix, if the text ends with it.
unfoldable pub strip_suffix : Str → Str → Option Str
strip_suffix suffix [] = if is_yes (Str_discrete [] suffix) then some [] else none
strip_suffix suffix (c ∷ s) =
    let more = strip_suffix suffix s in
    if is_yes (Str_discrete (c ∷ s) suffix)
    then some []
    else elim more [ none ↦ none | some t ↦ some (c ∷ t) ]

-- `strings.HasSuffix`
unfoldable pub has_suffix : Str → Str → Bool
unfolding strip_suffix
has_suffix suffix s = elim (strip_suffix suffix s) [ none ↦ false | some t ↦ true ]

-- The text ends in a character that the `.` of a regular expression matches.
unfoldable pub ends_in_line : Str → Bool
ends_in_line [] = false
ends_in_line (c ∷ []) = not (c == 10)
ends_in_line (c ∷ d ∷ s) = ends_in_line (d ∷ s)

-- `ReplaceAllString(s, "$1")` for `(.+)` before the suffix at the end.
unfoldable pub without_suffix : Str → Str → Str
unfolding strip_suffix ends_in_line
without_suffix suffix s = elim (strip_suffix suffix s) [
  | none ↦ s
  | some t ↦ if ends_in_line t then t else s
]

unfoldable pub unwrap_cluster_hash_tag : Str → Str
unfolding strip_suffix
unwrap_cluster_hash_tag [] = []
unwrap_cluster_hash_tag (c ∷ s) =
    if c == b'{' then elim (strip_suffix (b'}' ∷ []) s) [ none ↦ c ∷ s | some t ↦ t ] else c ∷ s

-- The suffix is that of the pool type's regular expression; the primary pool has none.
unfoldable pub parse_queue_key : Str → Option Str → Str → Str
unfolding trim_prefix pool_prefix without_suffix unwrap_cluster_hash_tag
parse_queue_key prefix suffix key =
    let queue = trim_prefix (pool_prefix prefix) key in
    unwrap_cluster_hash_tag (elim suffix [ none ↦ queue | some t ↦ without_suffix t queue ])
