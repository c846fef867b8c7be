-- ===== src/Redis.antt =====
-- What internal/queue/cache/redis_cache.go and its scripts ask of a Redis server: the commands on sorted
-- sets and keys, and the running of a script. The server is a parameter; what its documentation says of
-- the commands is a record of laws.
use deckard.Common.{
  ℕ, zero, suc, ◌≤◌, length, ◌≡◌, ◌⊎◌, Bool, true, ◌&&◌, Option, none, some, List, [], ◌∷◌,
  if◌then◌else◌, Str, Str_discrete, is_yes, exists,
}
use deckard.Common.Int.{ℤ, pos, leb_ℤ}
use deckard.Outcome.{Error, Result, ok, err}
use deckard.Score.{Score}

-- The commands. A bound of a range of scores that is absent is `-inf` or `+inf`.
pub record Redis : Type 1 where
  pub State : Type 0
  -- ZADD: the members with their scores; the number of new members.
  pub zadd : Str → List (Score × Str) → State → State × ℕ
  -- ZREM: the number of members that went.
  pub zrem : Str → List Str → State → State × ℕ
  pub zscore : Str → Str → State → Option Score
  -- ZRANGE from 0 to the index, both included; a negative index counts from the end.
  pub zrange : Str → ℤ → State → List Str
  -- ZRANGEBYSCORE with LIMIT 0: the bounds, and the count, where a negative one is no limit.
  pub zrange_by_score : Str → Option Score → Option Score → ℤ → State → List Str
  -- ZREVRANGEBYSCORE with LIMIT 0: the upper bound, the lower bound and the count.
  pub zrev_range_by_score : Str → Score → Score → ℤ → State → List Str
  pub get_key : Str → State → Option Str
  pub set_key : Str → Str → State → State
  pub del : List Str → State → State
  -- The replies to SCAN, from the cursor 0 until it is 0 again or a reply is an error.
  pub scan : Str → State → List (Result (List Str))
  -- How the client runs a script, or a single command. A script that fails keeps what it wrote.
  pub run : {A : Type 0} → (State → State × Result A) → State → State × Result A

-- A script or a command that does not fail.
abbrev pub done : {S A : Type 0} → S × A → S × Result A
done x = (x.0, ok x.1)

-- The state after m runs of a script.
unfoldable pub repeated : {S A : Type 0} → ℕ → (S → S × Result A) → S → S
repeated zero script s = s
repeated (suc m) script s = repeated m script (script s).0

-- The score that ZADD leaves a member: that of the last pair with it, if there is one.
abbrev pub overridden : List (Score × Str) → Str → Option Score → Option Score
overridden [] id old = old
overridden ((score, i) ∷ pairs) id old =
    overridden pairs id (if is_yes (Str_discrete i id) then some score else old)

abbrev pub present : Option Score → ℕ
present none = 0
present (some s) = 1

abbrev pub among_ids : Str → List Str → Bool
among_ids id ids = exists (λ i. is_yes (Str_discrete i id)) ids

-- The documented behaviour of the commands, and of the client: it sends a script again after a lost reply, so that the
-- script may have run any number of times, with no other script in between, before the run whose reply it returns, or before it
-- reports an error.
pub record RedisLaws (r : Redis) : Type 1 where
  pub zscore_zadd :
      (key k : Str) (pairs : List (Score × Str)) (id : Str) (s : r.State)
      → r.zscore k id (r.zadd key pairs s).0 ≡ (
          if is_yes (Str_discrete key k)
          then overridden pairs id (r.zscore k id s)
          else r.zscore k id s)
  pub zadd_one :
      (key : Str) (score : Score) (id : Str) (s : r.State)
      → (r.zadd key ((score, id) ∷ []) s).1
        ≡ (elim (r.zscore key id s) as (λ o. ℕ) [ none ↦ 1 | some old ↦ 0 ])
  pub zscore_zrem :
      (key k : Str) (ids : List Str) (id : Str) (s : r.State)
      → r.zscore k id (r.zrem key ids s).0
        ≡ (if is_yes (Str_discrete key k) && among_ids id ids then none else r.zscore k id s)
  pub zrem_one :
      (key id : Str) (s : r.State) → (r.zrem key (id ∷ []) s).1 ≡ present (r.zscore key id s)
  -- What a range gives are members; with bounds, members with such scores.
  pub zrange_member :
      (key : Str) (stop : ℤ) (id : Str) (s : r.State)
      → among_ids id (r.zrange key stop s) ≡ true
      → (score : Score) × (r.zscore key id s ≡ some score)
  pub zrange_by_score_member :
      (key : Str) (lo hi : Option Score) (count : ℤ) (id : Str) (s : r.State)
      → among_ids id (r.zrange_by_score key lo hi count s) ≡ true
      → (score : Score) × (r.zscore key id s ≡ some score)
        × (elim lo as (λ b. Bool) [ none ↦ true | some b ↦ leb_ℤ b score ] ≡ true)
        × (elim hi as (λ b. Bool) [ none ↦ true | some b ↦ leb_ℤ score b ] ≡ true)
  pub zrev_range_by_score_member :
      (key : Str) (hi lo : Score) (count : ℤ) (id : Str) (s : r.State)
      → among_ids id (r.zrev_range_by_score key hi lo count s) ≡ true
      → (score : Score) × (r.zscore key id s ≡ some score)
        × (leb_ℤ lo score ≡ true)
        × (leb_ℤ score hi ≡ true)
  pub zscore_set_key :
      (key value k id : Str) (s : r.State)
      → r.zscore k id (r.set_key key value s)
        ≡ (if is_yes (Str_discrete key k) then none else r.zscore k id s)
  pub zscore_del :
      (keys : List Str) (k id : Str) (s : r.State)
      → r.zscore k id (r.del keys s) ≡ (if among_ids k keys then none else r.zscore k id s)
  pub get_set_key :
      (key value k : Str) (s : r.State)
      → r.get_key k (r.set_key key value s)
        ≡ (if is_yes (Str_discrete key k) then some value else r.get_key k s)
  -- A range has no more members than asked for.
  pub zrange_length :
      (key : Str) (stop : ℕ) (s : r.State) → length (r.zrange key (pos stop) s) ≤ suc stop
  pub zrange_by_score_length :
      (key : Str) (lo hi : Option Score) (count : ℕ) (s : r.State)
      → length (r.zrange_by_score key lo hi (pos count) s) ≤ count
  pub zrev_range_by_score_length :
      (key : Str) (hi lo : Score) (count : ℕ) (s : r.State)
      → length (r.zrev_range_by_score key hi lo (pos count) s) ≤ count
  pub run_retried :
      {A : Type 0} (script : r.State → r.State × Result A) (s : r.State)
      → (m : ℕ) × ((r.run script s ≡ script (repeated m script s))
          ⊎ ((e : Error) × (r.run script s ≡ (repeated m script s, err e))))
