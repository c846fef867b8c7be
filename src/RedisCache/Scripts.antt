-- ===== src/RedisCache/Scripts.antt =====
-- internal/queue/cache/redis_cache_scripts.go: each script as a function of the server's state. A script that returns
-- the empty text returns no ids here.
use deckard.Common.{
  ℕ, zero, suc, ◌+◌, Bool, true, false, not, Option, none, some, List, [], ◌∷◌, if◌then◌else◌, Str,
  map, keep, length, ltb,
}
use deckard.Common.Int.{ℤ, pos, ◌-ℤ◌}
use deckard.Outcome.{Result, ok, err, too_many_results}
use deckard.Score.{Score, min_score, is_undefined}
use deckard.Redis.{Redis}

-- The C stack of Lua: `unpack` of as many values fails. `add_elements`, `remove_elements` and `unlock_elements` are called
-- with less: 2000 pairs, 4000 ids and 1000 ids, of which the last unpacks pairs.
abbrev pub unpack_limit : ℕ
unpack_limit = 8000

module _ (r : Redis) where
  unfoldable pub remove_elements : List Str → List Str → r.State → r.State × ℕ
  remove_elements [] ids s = (s, 0)
  remove_elements (pool ∷ pools) ids s =
      let removed = r.zrem pool ids s in
      let rest = remove_elements pools ids removed.0 in (rest.0, removed.1 + rest.1)

  -- To the first key from the second.
  unfoldable pub move_element : Str → Str → Score → Str → r.State → r.State × ℕ
  move_element destination source score id s =
      let removed = r.zrem source (id ∷ []) s in
      elim removed.1 [
        | zero ↦ (removed.0, 0)
        | suc n ↦ r.zadd destination ((score, id) ∷ []) removed.0
      ]

  -- The last score is kept for the unlocking, unless it is -1.
  unfoldable pub lock_element : Str → Str → Str → Score → Str → Score → r.State → r.State × ℕ
  unfolding is_undefined
  lock_element active lock lock_score score id kept s =
      let removed = r.zrem active (id ∷ []) s in
      let locked = r.zadd lock ((score, id) ∷ []) removed.0 in
      elim removed.1 [
        | zero ↦ (removed.0, 0)
        | suc n ↦ if is_undefined kept then locked else r.zadd lock_score ((kept, id) ∷ []) locked.0
      ]

  -- One of the pools has the element.
  unfoldable pub in_some_pool : List Str → Str → r.State → Bool
  in_some_pool [] id s = false
  in_some_pool (pool ∷ pools) id s = elim (r.zscore pool id s) [
    | none ↦ in_some_pool pools id s
    | some score ↦ true
  ]

  unfoldable pub add_all : Str → List (Score × Str) → r.State → r.State × List Str
  add_all destination [] s = (s, [])
  add_all destination (e ∷ es) s = ((r.zadd destination (e ∷ es) s).0, map (λ e. e.1) (e ∷ es))

  -- The pools are the destination and the others.
  unfoldable pub add_elements : Str → List Str → List (Score × Str) → r.State → r.State × List Str
  unfolding in_some_pool keep add_all
  add_elements destination others pairs s =
      add_all destination (keep (λ e. not (in_some_pool (destination ∷ others) e.1 s)) pairs) s

  -- The loops that add one element after the other, with one score.
  unfoldable pub add_each : Str → Score → List Str → r.State → r.State
  add_each destination score [] s = s
  add_each destination score (id ∷ ids) s =
      add_each destination score ids (r.zadd destination ((score, id) ∷ []) s).0

  -- What follows the range of elements in two of the scripts. The elements are added one by one; then `unpack` fails if there
  -- are too many, and they stay in both sets.
  unfoldable pub move_all : Str → Str → Score → List Str → r.State → r.State × Result (List Str)
  unfolding add_each
  move_all destination source score [] s = (s, ok [])
  move_all destination source score (id ∷ ids) s =
      let added = add_each destination score (id ∷ ids) s in
      if ltb (length (id ∷ ids)) unpack_limit
      then ((r.zrem source (id ∷ ids) added).0, ok (id ∷ ids))
      else (added, err too_many_results)

  unfoldable pub move_filtered_elements :
      Str → Str → Score → Score → ℤ → r.State → r.State × Result (List Str)
  unfolding move_all
  move_filtered_elements destination source filter score count s =
      move_all destination source score (r.zrev_range_by_score source filter (pos 0) count s) s

  -- The scores that the elements are unlocked with.
  unfoldable pub bulk_data : Str → Score → List Str → r.State → List (Score × Str)
  bulk_data lock_score default_score [] s = []
  bulk_data lock_score default_score (id ∷ ids) s =
      let rest = bulk_data lock_score default_score ids s in
      (elim (r.zscore lock_score id s) [ none ↦ default_score | some kept ↦ kept ], id) ∷ rest

  unfoldable pub unlock_all : Str → Str → Str → Score → List Str → r.State → r.State × List Str
  unfolding bulk_data
  unlock_all lock destination lock_score default_score [] s = (s, [])
  unlock_all lock destination lock_score default_score (id ∷ ids) s =
      let added = (r.zadd destination (bulk_data lock_score default_score (id ∷ ids) s) s).0 in
      let unlocked = (r.zrem lock (id ∷ ids) added).0 in
      ((r.zrem lock_score (id ∷ ids) unlocked).0, id ∷ ids)

  unfoldable pub unlock_elements :
      Str → Str → Str → ℤ → Score → Score → r.State → r.State × List Str
  unfolding unlock_all
  unlock_elements lock destination lock_score count now default_score s =
      unlock_all lock destination lock_score default_score
        (r.zrev_range_by_score lock now (pos 0) count s) s

  -- No bounds: the first n by rank. At n = 0 the last index is -1, which is the end of the set.
  unfoldable pub first_elements : Str → ℤ → Option Score → Option Score → r.State → List Str
  unfolding ◌-ℤ◌
  first_elements source n none none s = r.zrange source (n -ℤ pos 1) s
  first_elements source n (some lo) hi s = r.zrange_by_score source (some lo) hi n s
  first_elements source n none (some hi) s = r.zrange_by_score source none (some hi) n s

  unfoldable pub pull_elements :
      Str → Str → ℤ → Score → Option Score → Option Score → r.State → r.State × Result (List Str)
  unfolding first_elements move_all
  pull_elements source destination n score min_score max_score s =
      move_all destination source score (first_elements source n min_score max_score s) s
