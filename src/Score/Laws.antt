-- ===== src/Score/Laws.antt =====
-- The bounds of internal/queue/score/score.go, and what its clamping does to a pull's filter.
use deckard.Common.{◌-◌, ℕ, suc, ◌+◌, ◌*◌, ◌^◌, ◌≤◌, ◌<◌, ◌≡◌, arith}
use deckard.Common.Int.{pos, negsuc, ◌≤ℤ◌}
use deckard.Dtime.{Time, time_to_ms}
use deckard.Score.{
  Score, unit, round53, round_even, spacing, of_int64, max_score, min_score, get_add_score,
}

pub unit-pos : 0 < unit
unfolding unit
unit-pos = omega arith

spacing_small : (f n : ℕ) → n < 2 ^ 53 → spacing (suc f) n 1 ≡ 1
unfolding spacing
spacing_small f n h = ground arith

round_even-one : (n : ℕ) → round_even n 1 ≡ n
unfolding round_even
round_even-one n = ground arith

round53_exact : (n : ℕ) → n < 2 ^ 53 → round53 n ≡ n
unfolding round53
round53_exact n h = rw (spacing_small 10 n h) (round_even-one n)

-- Below 2^53 an int64 of either sign becomes the float64 with the same value.
pub of_int64_exact :
    (n : ℕ)
    → n < 2 ^ 53
    → (of_int64 (pos n) ≡ pos (n * unit))
      × (0 < n → of_int64 (negsuc (n - 1)) ≡ negsuc (n * unit - 1))
unfolding of_int64
of_int64_exact n h = (
  rw (round53_exact n h),
  λ p.
      let e : n - 1 + 1 ≡ n = omega arith in
      let q : 0 < n * unit = grind (arith, unit-pos) in rw (e, round53_exact n h) (ground arith),
)

-- What the service gives a new message lies between the smallest and the largest score, whatever
-- score the request asks for, while the clock's milliseconds do.
pub get_add_score_bounds :
    (now : Time) (n : ℕ) (score : Score)
    → time_to_ms now ≡ pos n
    → n < 2 ^ 53
    → (min_score ≤ℤ get_add_score now score) × (get_add_score now score ≤ℤ max_score)
unfolding get_add_score max_score
get_add_score_bounds now n score e h =
    let q : n * unit ≤ 9007199254740992 * unit = grind arith in
    let d : of_int64 (time_to_ms now) ≡ pos (n * unit) = rw e (of_int64_exact n h).0 in
    rw d (ground arith)
