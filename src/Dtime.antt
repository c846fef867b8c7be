-- ===== src/Dtime.antt =====
-- internal/dtime/deckard_time.go. A `time.Time` is its nanoseconds since the Unix epoch (`UnixNano`),
-- without the bounds of int64; the monotonic reading is not modelled.
pub mod Laws
use deckard.Common.{ℕ, ◌+◌, ◌*◌, List, [], ◌∷◌}
use deckard.Common.Int.{ℤ, ◌+ℤ◌, ◌-ℤ◌, quot, rem, floor_div, scale}
use deckard.Outcome.{Result, ok, panic}

abbrev pub Time : Type 0
Time = ℤ

-- What a loop reads of the clock: two readings in each round.
abbrev pub Readings : Type 0
Readings = ℕ → Time × Time

abbrev pub millis_per_second : ℕ
millis_per_second = 1000

abbrev pub nanos_per_millisecond : ℕ
nanos_per_millisecond = 1000000

unfoldable pub time_to_ms : Time → ℤ
unfolding quot
time_to_ms t = quot t nanos_per_millisecond

-- `time.Unix(sec, nsec)`.
unfoldable pub time_unix : ℤ → ℤ → Time
unfolding scale ◌+ℤ◌
time_unix sec nsec = scale sec 1000000000 +ℤ nsec

unfoldable pub ms_to_time : ℤ → Time
unfolding quot rem scale time_unix
ms_to_time ms =
    time_unix (quot ms millis_per_second) (scale (rem ms millis_per_second) nanos_per_millisecond)

unfoldable pub ms_precision : Time → Time
unfolding ms_to_time time_to_ms
ms_precision t = ms_to_time (time_to_ms t)

-- `t.Unix()`: whole seconds, rounded down.
unfoldable pub unix : Time → ℤ
unfolding floor_div
unix t = floor_div t 1000000000

-- The milliseconds since `since`, at the clock reading `now`.
unfoldable pub elapsed_time : Time → Time → ℤ
unfolding quot ◌-ℤ◌
elapsed_time now since = quot (now -ℤ since) nanos_per_millisecond

-- `nowProvider` and `internalTimeMocking`.
pub data NowProvider : Type 0 where
  system : NowProvider
  mocked : List Time → NowProvider

unfoldable pub reset_now_provider : NowProvider
reset_now_provider = system

unfoldable pub set_now_provider_values : List Time → NowProvider
set_now_provider_values value = mocked value

-- A call of the provider, where `clock` is what `time.Now()` returns: the provider after it, and
-- the time.
unfoldable pub provide : NowProvider → Time → NowProvider × Result Time
provide system clock = (system, ok clock)
provide (mocked []) clock = (mocked [], panic)
provide (mocked (t ∷ [])) clock = (mocked (t ∷ []), ok t)
provide (mocked (t ∷ u ∷ ts)) clock = (mocked (u ∷ ts), ok t)

-- The results of as many calls as there are clock readings.
unfoldable pub provide_all : NowProvider → List Time → List (Result Time)
unfolding provide
provide_all p [] = []
provide_all p (c ∷ cs) = (provide p c).1 ∷ provide_all (provide p c).0 cs
