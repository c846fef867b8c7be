-- ===== src/Score.antt =====
-- internal/queue/score/score.go. A finite float64 is a multiple of 2^-1074, and a score is the number of
-- these units, so that comparisons are exact. NaN and the infinities are not modelled.
pub mod Laws
use deckard.Common.{
  false, ℕ, zero, suc, ◌+◌, ◌-◌, ◌*◌, ◌/◌, ◌%◌, ◌^◌, ◌≤◌, ◌<◌, ◌≡◌, Bool, Option, none, some, ltb,
  leb, ◌==◌, if◌then◌else◌, ◌||◌, ◌&&◌,
}
use deckard.Common.Int.{ℤ, pos, negsuc, ltb_ℤ, leb_ℤ, eqb_ℤ, sub_ℕ}
use deckard.Dtime.{Time, time_to_ms}

abbrev pub Score : Type 0
Score = ℤ

-- The units of the score 1.
unfoldable pub unit : ℕ
unit = 2 ^ 1074

-- n rounded to a multiple of q, a tie to the even one.
unfoldable pub round_even : ℕ → ℕ → ℕ
round_even n q =
    let d = n / q in
    let r = n % q in if ltb (2 * r) q || 2 * r == q && d % 2 == 0 then d * q else (d + 1) * q

-- The spacing of floats at n: the least power of two, from q on, of which n has fewer than 2^53.
unfoldable pub spacing : ℕ → ℕ → ℕ → ℕ
spacing zero n q = q
spacing (suc f) n q = let wider = spacing f n (q * 2) in if ltb (n / q) (2 ^ 53) then q else wider

unfoldable pub round53 : ℕ → ℕ
unfolding round_even spacing
round53 n = round_even n (spacing 11 n 1)

-- `float64(v)` of an int64.
unfoldable pub of_int64 : ℤ → Score
unfolding round53
of_int64 (pos n) = pos (round53 n * unit)
of_int64 (negsuc n) = sub_ℕ 0 (round53 (n + 1) * unit)

unfoldable pub max_score : Score
max_score = pos (9007199254740992 * unit)

abbrev pub min_score : Score
min_score = pos 0

-- -1
unfoldable pub undefined_score : Score
undefined_score = sub_ℕ 0 unit

unfoldable pub get_pull_max_score : Score → Option Score
get_pull_max_score score =
    if eqb_ℤ score (pos 0)
    then none
    else if ltb_ℤ max_score score
    then some max_score
    else if ltb_ℤ score min_score
    then some min_score
    else some score

unfoldable pub get_pull_min_score : Score → Option Score
get_pull_min_score score =
    if eqb_ℤ score (pos 0)
    then none
    else if ltb_ℤ max_score score
    then some max_score
    else if leb_ℤ score min_score
    then some min_score
    else some score

-- At the clock reading `now`.
unfoldable pub get_score_by_default_algorithm : Time → Score
get_score_by_default_algorithm now = of_int64 (time_to_ms now)

unfoldable pub get_score_from_time : Time → Score
get_score_from_time time = of_int64 (time_to_ms time)

unfoldable pub get_add_score : Time → Score → Score
unfolding get_score_by_default_algorithm
get_add_score now score =
    if eqb_ℤ score (pos 0)
    then get_score_by_default_algorithm now
    else if ltb_ℤ score min_score
    then min_score
    else if ltb_ℤ max_score score
    then max_score
    else score

unfoldable pub is_undefined : Score → Bool
is_undefined score = eqb_ℤ score undefined_score

-- `minScore != nil && s < *minScore || maxScore != nil && s > *maxScore`
unfoldable pub out_of_range : Option Score → Option Score → Score → Bool
out_of_range none none s = false
out_of_range (some lo) none s = ltb_ℤ s lo
out_of_range none (some hi) s = ltb_ℤ hi s
out_of_range (some lo) (some hi) s = ltb_ℤ s lo || ltb_ℤ hi s
