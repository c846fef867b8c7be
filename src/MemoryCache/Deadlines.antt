-- ===== src/MemoryCache/Deadlines.antt =====
-- How many entries a housekeeping call moves, and when a pulled message times out.
use deckard.Common.{ℕ, ◌+◌, ◌≤◌, ◌<◌, ◌≡◌, arith}
use deckard.Common.Int.{pos, leb_ℤ}
use deckard.Dtime.{Time, unix}
use deckard.Entries.{Entry}
use deckard.MemoryCache.{MemoryCache}
use deckard.MemoryCache.Pull.{processing_entry}
use deckard.MemoryCache.Release.{timed_out}
use deckard.Common.Int.{add64}
use deckard.Score.{unit}
use deckard.Common.{dec_le, ◌*◌, ◌^◌}
use deckard.Score.Laws.{of_int64_exact, unit-pos}

scaled-leb : (a b : ℕ) → leb_ℤ (pos (a * unit)) (pos (b * unit)) ≡ leb_ℤ (pos a) (pos b)
scaled-leb a b = elim (dec_le a b) [
  | yes p ↦ let q : a * unit ≤ b * unit = grind arith in ground arith
  | no p ↦ let q : b * unit < a * unit = grind (arith, unit-pos) in ground arith
]

-- A message pulled at second t with an acknowledgement deadline of d milliseconds has timed out exactly when d whole
-- seconds are over: the deadline is added to seconds.
pub timed_out-processing_entry :
    (pulled now : Time) (t d s : ℕ) (e : Entry)
    → unix pulled ≡ pos t
    → unix now ≡ pos s
    → t + d < 2 ^ 53
    → s < 2 ^ 53
    → timed_out (unix now) (processing_entry pulled (pos d) e) ≡ leb_ℤ (pos (t + d)) (pos s)
unfolding timed_out processing_entry
timed_out-processing_entry pulled now t d s e hp hn hd hs =
    let sum : add64 (unix pulled) (pos d) ≡ pos (t + d) = rw hp (unfold add64 in ground arith) in
    rw (sum, hn, (of_int64_exact (t + d) hd).0, (of_int64_exact s hs).0) (scaled-leb (t + d) s)
