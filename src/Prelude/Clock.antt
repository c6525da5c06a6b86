-- ===== src/Prelude/Clock.antt =====
-- `SystemTime` and `Duration`. A time is a number of nanoseconds after the Unix epoch, on a platform
-- whose clock counts seconds in an `i64`; a clock set before the epoch is not modelled.
use Prim.Native.Nat.{ℕ, ◌+◌, ◌-◌, ◌*◌, ◌/◌, ◌%◌, ◌^◌}
use mathlib.Core.Option.{Option, none, some}
use aerugo_cache.Prelude.Tests.{ltb, leb, if◌then◌else◌}

abbrev pub nanos_per_sec : ℕ
nanos_per_sec = 1_000_000_000

abbrev pub Time : Type 0
Time = ℕ

-- The readings of `SystemTime::now()` during a call, in the order in which the call makes them.
abbrev pub Clock : Type 0
Clock = ℕ → Time

abbrev pub later : ℕ → Clock → Clock
later n clock i = clock (n + i)

unfoldable pub as_secs : ℕ → ℕ
as_secs d = d / nanos_per_sec

unfoldable pub subsec_nanos : ℕ → ℕ
subsec_nanos d = d % nanos_per_sec

-- `time.checked_add(Duration::from_secs(seconds))`
unfoldable pub checked_add : Time → ℕ → Option Time
checked_add time seconds =
    if ltb (as_secs time + seconds) (2 ^ 63) then some (time + seconds * nanos_per_sec) else none

-- `time.duration_since(earlier)`; `none` is its error.
unfoldable pub duration_since : Time → Time → Option ℕ
duration_since time earlier = if leb earlier time then some (time - earlier) else none
