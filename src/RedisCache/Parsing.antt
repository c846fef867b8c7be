-- ===== src/RedisCache/Parsing.antt =====
-- The queue names that `ListQueues` reads from the keys of their pools.
use deckard.Common.{
  append_assoc, ℕ, ◌≡◌, refl, sym, ap, ◌∙◌, true, false, not, some, List, [], ◌∷◌, ◌++◌, Str,
  Str_discrete, is_yes, keep, map, arith, length, length-append, Bool, ◌||◌, ◌&&◌, exists, codes,
  suc, if◌then◌else◌,
}
use deckard.Message.{PoolType, primary_pool, processing_pool, lock_ack_pool, lock_nack_pool}
use deckard.Redis.{among_ids}
use deckard.RedisCache.Keys.{
  is_valid_queue_name, pool_prefix, active_pool, lock_pool, strip_prefix, trim_prefix, strip_suffix,
  ends_in_line, without_suffix, unwrap_cluster_hash_tag, parse_queue_key, processing_pool_suffix,
  lock_suffix, score_suffix, has_suffix,
}
use deckard.RedisCache.Keys as Keys
use deckard.RedisCache.Lists.{
  search_pattern, suffix_regex, queues_of_keys, uniq_from, uniq_strings, filter_queue_suffix,
  has_pool_suffix,
}

strip_prefix-append : (p s : Str) → strip_prefix p (p ++ s) ≡ some s
unfolding strip_prefix
strip_prefix-append [] s = refl
strip_prefix-append (c ∷ p) s = ground (arith, strip_prefix-append p s)

trim_prefix-append : (p s : Str) → trim_prefix p (p ++ s) ≡ s
unfolding trim_prefix
trim_prefix-append p s = ground (arith, strip_prefix-append p s)

longer : (c : ℕ) (t suffix : Str) → is_yes (Str_discrete (c ∷ (t ++ suffix)) suffix) ≡ false
longer c t suffix = elim (Str_discrete (c ∷ (t ++ suffix)) suffix) [
  | yes e ↦ absurd (omega (arith, ap length e, length-append t suffix))
  | no e ↦ ground (arith, e)
]

strip_suffix-append :
    (t : Str) (d : ℕ) (suffix : Str) → strip_suffix (d ∷ suffix) (t ++ (d ∷ suffix)) ≡ some t
unfolding strip_suffix
strip_suffix-append [] d suffix = ground arith
strip_suffix-append (c ∷ t) d suffix =
    ground (arith, longer c t (d ∷ suffix), strip_suffix-append t d suffix)

ends_in_line-brace : (c : ℕ) (t : Str) → ends_in_line (c ∷ (t ++ (b'}' ∷ []))) ≡ true
unfolding ends_in_line
ends_in_line-brace c [] = refl
ends_in_line-brace c (d ∷ t) = ends_in_line-brace d t

unwrap-braced : (q : Str) → unwrap_cluster_hash_tag (b'{' ∷ (q ++ (b'}' ∷ []))) ≡ q
unfolding unwrap_cluster_hash_tag
unwrap-braced q = rw (strip_suffix-append q b'}' []) refl

without_suffix-braced :
    (q : Str) (d : ℕ) (suffix : Str)
    → without_suffix (d ∷ suffix) (b'{' ∷ (q ++ (b'}' ∷ d ∷ suffix))) ≡ b'{' ∷ (q ++ (b'}' ∷ []))
unfolding without_suffix
without_suffix-braced q d suffix =
    let whole = b'{' ∷ (q ++ (b'}' ∷ [])) in
    let shape : b'{' ∷ (q ++ (b'}' ∷ d ∷ suffix)) ≡ whole ++ (d ∷ suffix) =
      ap (λ v. b'{' ∷ v) (sym (append_assoc q (b'}' ∷ []) (d ∷ suffix))) in
    ground (
      arith,
      ap (strip_suffix (d ∷ suffix)) shape,
      strip_suffix-append whole d suffix,
      ends_in_line-brace b'{' q,
    )

parse-suffixed :
    (prefix q : Str) (d : ℕ) (suffix : Str)
    → parse_queue_key prefix
        (some (d ∷ suffix))
        (pool_prefix prefix ++ (b'{' ∷ (q ++ (b'}' ∷ d ∷ suffix))))
      ≡ q
unfolding parse_queue_key
parse-suffixed prefix q d suffix =
    ap (λ k. unwrap_cluster_hash_tag (without_suffix (d ∷ suffix) k))
      (trim_prefix-append (pool_prefix prefix) (b'{' ∷ (q ++ (b'}' ∷ d ∷ suffix))))
    ∙ ap unwrap_cluster_hash_tag (without_suffix-braced q d suffix)
    ∙ unwrap-braced q

-- Each pool's key gives its queue's name back.
pub parse_queue_key-search_pattern :
    (prefix q : Str) (t : PoolType)
    → parse_queue_key prefix (suffix_regex t) (search_pattern prefix q t) ≡ q
unfolding parse_queue_key search_pattern active_pool Keys.processing_pool lock_pool
parse_queue_key-search_pattern prefix q primary_pool =
    ap unwrap_cluster_hash_tag (trim_prefix-append (pool_prefix prefix) (b'{' ∷ (q ++ (b'}' ∷ []))))
    ∙ unwrap-braced q
parse_queue_key-search_pattern prefix q processing_pool = parse-suffixed prefix q _ _
parse_queue_key-search_pattern prefix q lock_ack_pool = parse-suffixed prefix q _ _
parse_queue_key-search_pattern prefix q lock_nack_pool = parse-suffixed prefix q _ _

map-parse :
    (prefix : Str) (t : PoolType) (queues : List Str)
    → map (parse_queue_key prefix (suffix_regex t)) (map (λ q. search_pattern prefix q t) queues)
      ≡ queues
map-parse prefix t [] = refl
map-parse prefix t (q ∷ queues) =
    ground (arith, parse_queue_key-search_pattern prefix q t, map-parse prefix t queues)

abbrev pub is_primary : PoolType → Bool
is_primary primary_pool = true
is_primary processing_pool = false
is_primary lock_ack_pool = false
is_primary lock_nack_pool = false

-- How often a text stands in a list.
unfoldable pub how_often : Str → List Str → ℕ
how_often q [] = 0
how_often q (v ∷ vs) =
    let rest = how_often q vs in if is_yes (Str_discrete v q) then suc rest else rest

-- The text is the other one from some place on.
unfoldable pub is_tail : Str → Str → Bool
is_tail tail [] = is_yes (Str_discrete [] tail)
is_tail tail (c ∷ s) = is_yes (Str_discrete (c ∷ s) tail) || is_tail tail s

-- The ends of the keys that a queue has beside that of its primary pool.
abbrev pub key_ends : List Str
key_ends =
    codes ":tmp"
    ∷ codes ":lock_ack"
    ∷ codes ":lock_nack"
    ∷ codes ":lock_ack:score"
    ∷ codes ":lock_nack:score"
    ∷ []

-- The name of the queue ends like one of these keys.
abbrev pub ends_like_key : Str → Bool
ends_like_key q = exists (λ tail. is_tail tail q) key_ends

has_suffix-is_tail : (suffix s : Str) → has_suffix suffix s ≡ is_tail suffix s
unfolding has_suffix is_tail strip_suffix
has_suffix-is_tail suffix [] = ground arith
has_suffix-is_tail suffix (c ∷ s) = ground (arith, has_suffix-is_tail suffix s)

has_pool_suffix-ends_like_key : (q : Str) → has_pool_suffix q ≡ ends_like_key q
unfolding has_pool_suffix exists
has_pool_suffix-ends_like_key q = ground (
  arith,
  has_suffix-is_tail (codes ":tmp") q,
  has_suffix-is_tail (codes ":lock_ack") q,
  has_suffix-is_tail (codes ":lock_nack") q,
  has_suffix-is_tail (codes ":lock_ack:score") q,
  has_suffix-is_tail (codes ":lock_nack:score") q,
)

how_often-uniq_from :
    (q : Str) (seen vs : List Str)
    → how_often q (uniq_from seen vs) ≡ (if among_ids q vs && not (among_ids q seen) then 1 else 0)
unfolding how_often uniq_from exists
how_often-uniq_from q seen [] = refl
how_often-uniq_from q seen (v ∷ vs) = elim (Str_discrete v q) [
  | yes e ↦ ground (
    arith,
    e,
    ap (λ w. among_ids w seen) e,
    how_often-uniq_from q seen vs,
    how_often-uniq_from q (v ∷ seen) vs,
  )
  | no e ↦ ground (arith, e, how_often-uniq_from q seen vs, how_often-uniq_from q (v ∷ seen) vs)
]

how_often-keep :
    (p : Str → Bool) (q : Str) (vs : List Str)
    → how_often q (keep p vs) ≡ (if p q then how_often q vs else 0)
unfolding how_often keep
how_often-keep p q [] = ground arith
how_often-keep p q (v ∷ vs) = elim (Str_discrete v q) [
  | yes e ↦ ground (arith, ap p e, how_often-keep p q vs)
  | no e ↦ ground (arith, e, how_often-keep p q vs)
]

-- From the keys that queues have in a pool, in whatever order and however often a scan gives them, `ListQueues` gives each of these
-- queues once and no other; in the primary pool it leaves out every queue whose own name ends like the keys of the other pools.
pub how_often-queues_of_keys :
    (prefix : Str) (t : PoolType) (queues : List Str) (q : Str)
    → how_often q (queues_of_keys prefix t (map (λ q. search_pattern prefix q t) queues))
      ≡ (if among_ids q queues && not (is_primary t && ends_like_key q) then 1 else 0)
unfolding queues_of_keys filter_queue_suffix uniq_strings exists
how_often-queues_of_keys prefix primary_pool queues q = rw (map-parse prefix primary_pool queues) (
    ground (
      arith,
      has_pool_suffix-ends_like_key q,
      how_often-keep (λ q. not (has_pool_suffix q)) q (uniq_from [] queues),
      how_often-uniq_from q [] queues,
    ))
how_often-queues_of_keys prefix processing_pool queues q =
    rw (map-parse prefix processing_pool queues) (ground (arith, how_often-uniq_from q [] queues))
how_often-queues_of_keys prefix lock_ack_pool queues q =
    rw (map-parse prefix lock_ack_pool queues) (ground (arith, how_often-uniq_from q [] queues))
how_often-queues_of_keys prefix lock_nack_pool queues q =
    rw (map-parse prefix lock_nack_pool queues) (ground (arith, how_often-uniq_from q [] queues))
