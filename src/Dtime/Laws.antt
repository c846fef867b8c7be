-- ===== src/Dtime/Laws.antt =====
-- Conversions of internal/dtime/deckard_time.go between times and milliseconds, and its mocked clock.
use deckard.Common.{◌≡◌, ap, arith}
use deckard.Common.Int.{ℤ, pos, negsuc}
use deckard.Dtime.{Time, time_to_ms, ms_to_time, ms_precision}

-- Milliseconds survive the way to a time and back.
pub time_to_ms-ms_to_time : (ms : ℤ) → time_to_ms (ms_to_time ms) ≡ ms
unfolding time_to_ms ms_to_time
time_to_ms-ms_to_time (pos n) = ground arith
time_to_ms-ms_to_time (negsuc n) = ground arith

-- Cutting a time to whole milliseconds once is as good as twice.
pub ms_precision_idem : (t : Time) → ms_precision (ms_precision t) ≡ ms_precision t
unfolding ms_precision
ms_precision_idem t = ap ms_to_time (time_to_ms-ms_to_time (time_to_ms t))
