-- ===== src/RedisCache/Naming.antt =====
-- The keys of internal/queue/cache/redis_cache.go: when two of them are the same.
use deckard.Common.{
  append_assoc, ◌==◌, ℕ, ◌≡◌, refl, sym, ap, ◌∙◌, Bool, true, false, ◌&&◌, List, [], ◌∷◌, ◌++◌,
  if◌then◌else◌, Str, Str_discrete, is_yes, exists, codes, arith, length, ℕ_discrete,
}
use deckard.MemoryCache.{LockType, lock_ack, lock_nack}
use deckard.RedisCache.Keys.{
  is_valid_queue_name, pool_prefix, configured_prefix, general_cache_key, active_pool,
  processing_pool, lock_pool, lock_pool_score,
}

-- The sorted sets of a queue.
pub data Slot : Type 0 where
  active processing : Slot
  locked locked_score : LockType → Slot

abbrev pub slots : List Slot
slots =
    active
    ∷ processing
    ∷ locked lock_ack
    ∷ locked lock_nack
    ∷ locked_score lock_ack
    ∷ locked_score lock_nack
    ∷ []

unfoldable pub key : Str → Str → Slot → Str
unfolding active_pool processing_pool lock_pool lock_pool_score
key prefix queue active = active_pool prefix queue
key prefix queue processing = processing_pool prefix queue
key prefix queue (locked t) = lock_pool prefix queue t
key prefix queue (locked_score t) = lock_pool_score prefix queue t

-- A number of each sorted set.
abbrev pub rank : Slot → ℕ
rank active = 0
rank processing = 1
rank (locked lock_ack) = 2
rank (locked lock_nack) = 3
rank (locked_score lock_ack) = 4
rank (locked_score lock_nack) = 5

abbrev pub same_slot : Slot → Slot → Bool
same_slot a b = rank a == rank b

suffix : Slot → Str
unfolding active_pool
suffix active = []
suffix processing = codes ":tmp"
suffix (locked lock_ack) = codes ":lock_ack"
suffix (locked lock_nack) = codes ":lock_nack"
suffix (locked_score lock_ack) = codes ":lock_ack:score"
suffix (locked_score lock_nack) = codes ":lock_nack:score"

key-suffix :
    (prefix queue : Str) (a : Slot)
    → key prefix queue a ≡ pool_prefix prefix ++ (b'{' ∷ (queue ++ (b'}' ∷ suffix a)))
unfolding key active_pool processing_pool lock_pool lock_pool_score suffix
key-suffix prefix queue active = refl
key-suffix prefix queue processing = refl
key-suffix prefix queue (locked lock_ack) = refl
key-suffix prefix queue (locked lock_nack) = refl
key-suffix prefix queue (locked_score lock_ack) = refl
key-suffix prefix queue (locked_score lock_nack) = refl

-- The rank that a suffix has, by its length.
rank_of : ℕ → ℕ
rank_of n =
    if n == 0
    then 0
    else if n == 4
    then 1
    else if n == 9
    then 2
    else if n == 10
    then 3
    else if n == 15
    then 4
    else 5

rank_of-suffix : (a : Slot) → rank_of (length (suffix a)) ≡ rank a
unfolding rank_of suffix
rank_of-suffix active = refl
rank_of-suffix processing = refl
rank_of-suffix (locked lock_ack) = refl
rank_of-suffix (locked lock_nack) = refl
rank_of-suffix (locked_score lock_ack) = refl
rank_of-suffix (locked_score lock_nack) = refl

suffix_at : ℕ → Str
unfolding suffix
suffix_at n =
    if n == 0
    then suffix active
    else if n == 1
    then suffix processing
    else if n == 2
    then suffix (locked lock_ack)
    else if n == 3
    then suffix (locked lock_nack)
    else if n == 4
    then suffix (locked_score lock_ack)
    else suffix (locked_score lock_nack)

suffix_at-rank : (a : Slot) → suffix_at (rank a) ≡ suffix a
unfolding suffix_at suffix
suffix_at-rank active = refl
suffix_at-rank processing = refl
suffix_at-rank (locked lock_ack) = refl
suffix_at-rank (locked lock_nack) = refl
suffix_at-rank (locked_score lock_ack) = refl
suffix_at-rank (locked_score lock_nack) = refl

same_suffix : (a b : Slot) → is_yes (Str_discrete (suffix a) (suffix b)) ≡ same_slot a b
same_suffix a b = elim (Str_discrete (suffix a) (suffix b)) [
  | yes e ↦ ground (arith, rank_of-suffix a, rank_of-suffix b, ap (λ s. rank_of (length s)) e)
  | no e ↦ elim (ℕ_discrete (rank a) (rank b)) [
    | yes f ↦ absurd (e (sym (suffix_at-rank a) ∙ ap suffix_at f ∙ suffix_at-rank b))
    | no f ↦ ground (arith, e, f)
  ]
]

test-cons : (c : ℕ) (s t : Str) → is_yes (Str_discrete (c ∷ s) (c ∷ t)) ≡ is_yes (Str_discrete s t)
test-cons c s t = ground arith

test-prefix : (p s t : Str) → is_yes (Str_discrete (p ++ s) (p ++ t)) ≡ is_yes (Str_discrete s t)
test-prefix [] s t = refl
test-prefix (c ∷ p) s t = test-cons c (p ++ s) (p ++ t) ∙ test-prefix p s t

-- Before a brace that neither name has.
test-braced :
    (q k s t : Str)
    → is_valid_queue_name q ≡ true
    → is_valid_queue_name k ≡ true
    → is_yes (Str_discrete (q ++ (b'}' ∷ s)) (k ++ (b'}' ∷ t)))
      ≡ (is_yes (Str_discrete q k) && is_yes (Str_discrete s t))
unfolding is_valid_queue_name exists Str_discrete
test-braced [] [] s t v w = test-cons b'}' s t
test-braced [] (d ∷ k) s t v w = ground arith
test-braced (c ∷ q) [] s t v w = ground arith
test-braced (c ∷ q) (d ∷ k) s t v w = ground (arith, test-braced q k s t)

-- The test of two keys of valid names is that of the names and of the pools.
pub test-key :
    (prefix q k : Str) (a b : Slot)
    → is_valid_queue_name q ≡ true
    → is_valid_queue_name k ≡ true
    → is_yes (Str_discrete (key prefix q a) (key prefix k b))
      ≡ (is_yes (Str_discrete q k) && same_slot a b)
test-key prefix q k a b v w =
    rw (key-suffix prefix q a, key-suffix prefix k b)
      (test-prefix (pool_prefix prefix) _ _
        ∙ test-cons b'{' _ _
        ∙ test-braced q k (suffix a) (suffix b) v w
        ∙ ap (λ t. is_yes (Str_discrete q k) && t) (same_suffix a b))

-- A key of `Set` is that of no sorted set.
pub test-general :
    (prefix c q : Str) (a : Slot)
    → is_yes (Str_discrete (general_cache_key prefix c) (key prefix q a)) ≡ false
unfolding general_cache_key pool_prefix
test-general prefix c q a =
    rw
      (
        key-suffix prefix q a,
        append_assoc (configured_prefix prefix) (codes ":queue:") (b'{' ∷ (q ++ (b'}' ∷ suffix a))),
      )
      (test-prefix (configured_prefix prefix) _ _ ∙ test-cons b':' _ _ ∙ (ground arith))
