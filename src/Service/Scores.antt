-- ===== src/Service/Scores.antt =====
-- The scores that `Ack` and `Nack` requests hand to the queue.
use deckard.Common.{◌≡◌, ◌≢◌, ◌⊎◌, refl, true, false, arith, Bool-cases, inl, inr, if◌then◌else◌}
use deckard.Common.Int.{ℤ, pos, eqb_ℤ, ltb_ℤ, ◌≤ℤ◌, eq_of_parts}
use deckard.Dtime.{Time}
use deckard.Score.{Score, max_score, min_score, is_undefined, get_score_by_default_algorithm}
use deckard.Service.Releasing.{AckRequest, ack_score, nack_score}

nonzero : (s : ℤ) → s ≢ pos 0 → eqb_ℤ s (pos 0) ≡ false
nonzero s n = elim (Bool-cases (eqb_ℤ s (pos 0))) [
  | inl e ↦ absurd (n (eq_of_parts s (pos 0) (ground (arith, e))))
  | inr e ↦ e
]

zero_or_not : (s : ℤ) → (s ≡ pos 0) ⊎ (s ≢ pos 0)
zero_or_not s = elim (Bool-cases (eqb_ℤ s (pos 0))) [
  | inl e ↦ inl (eq_of_parts s (pos 0) (ground (arith, e)))
  | inr e ↦ inr (λ z. absurd (ground (arith, e, z)))
]

clamped_bounds :
    (hi s : Score)
    → min_score ≤ℤ hi
    → let c = if ltb_ℤ s min_score then min_score else if ltb_ℤ hi s then hi else s in
      (min_score ≤ℤ c) × (c ≤ℤ hi)
clamped_bounds hi s h = (ground (arith, h), ground (arith, h))

least_max : min_score ≤ℤ max_score
unfolding max_score
least_max = omega arith

-- An `Ack` or `Nack` request hands on its score as it is, in range or not, unless that is 0; with 0 the score is undefined if a lock time is
-- given, and without one it is in the range of scores, whatever the float subtraction gives.
pub ack_score-nack_score_bounds :
    (sub_float : Score → Score → Score) (now : Time) (request : AckRequest)
    → ((request.score ≢ pos 0)
        × (ack_score sub_float now request ≡ request.score)
        × (nack_score request ≡ request.score))
      ⊎ ((request.score ≡ pos 0)
          × (request.lock_ms ≢ pos 0)
          × (is_undefined (ack_score sub_float now request) ≡ true)
          × (is_undefined (nack_score request) ≡ true))
      ⊎ ((request.score ≡ pos 0)
          × (request.lock_ms ≡ pos 0)
          × (min_score ≤ℤ ack_score sub_float now request)
          × (ack_score sub_float now request ≤ℤ max_score)
          × (nack_score request ≡ min_score))
unfolding ack_score nack_score is_undefined
ack_score-nack_score_bounds sub_float now request = elim (zero_or_not request.score) [
  | inr n ↦
      inl (n, ground (arith, nonzero request.score n), ground (arith, nonzero request.score n))
  | inl z ↦ elim (zero_or_not request.lock_ms) [
    | inr n ↦ inr (
        inl (
          z,
          n,
          rw z (ground (arith, nonzero request.lock_ms n)),
          rw z (ground (arith, nonzero request.lock_ms n)),
        ))
    | inl u ↦
        let c =
          clamped_bounds max_score
            (sub_float (get_score_by_default_algorithm now) request.score_subtract) least_max in
        inr (inr (z, u, rw (z, u) c.0, rw (z, u) c.1, rw (z, u) refl))
  ]
]
