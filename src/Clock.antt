-- ===== src/Clock.antt =====
-- Times and durations are counts of nanoseconds. What Go's package time does with the text of a
-- time is a parameter, except for the hour and minute of the day.
use sounding.Prelude.{
  ◌^◌, ℕ, leb, ◌-◌, if◌then◌else◌, ◌+◌, ◌*◌, ◌/◌, ◌%◌, ◌++◌, [], ◌∷◌, Text, Option, arith, ◌<◌,
}

abbrev pub Time : Type 0
Time = ℕ

abbrev pub Duration : Type 0
Duration = ℕ

abbrev pub second : Duration
second = 1_000_000_000

abbrev pub minute : Duration
minute = 60 * second

abbrev pub hour : Duration
hour = 60 * minute

-- `time.Parse(time.RFC3339, s)`, `t.Format(time.RFC3339)`, also of the instant some nanoseconds before
-- the first one that a Time counts, and the local zone's offset to UTC in
-- minutes, counted up from zero.
pub record Zone : Type 0 where
  pub parse_time : Text → Option Time
  pub format_time : Time → Text
  pub format_before : Duration → Text
  pub offset : ℕ

-- The text of the instant that lies a duration before another.
unfoldable pub earlier : Zone → Time → Duration → Text
earlier z now d = if leb d now then z.format_time (now - d) else z.format_before (d - now)

-- The text of `now.Add(-time.Duration(hours) * time.Hour)`: the product is one of int64, which wraps around, so
-- from 2^63 nanoseconds on the instant lies later; -2^63 is its own negation.
unfoldable pub hours_before : Zone → Time → ℕ → Text
unfolding earlier
hours_before z now hours =
    let d = hours * hour % 2 ^ 64 in
    if leb d (2 ^ 63) then earlier z now d else z.format_time (now + (2 ^ 64 - d))

two_digits : ℕ → Text
two_digits n = (b'0' + n / 10) ∷ (b'0' + n % 10) ∷ []

-- The text of a minute of the day, as the layout "15:04" writes it.
unfoldable pub clock_text : ℕ → Text
unfolding two_digits
clock_text m = two_digits (m / 60) ++ b':' ∷ two_digits (m % 60)

-- The minute of the local day.
unfoldable pub minute_of_day : Zone → Time → ℕ
minute_of_day z t = (t / minute + z.offset) % 1440

pub minute_of_day-lt : (z : Zone) (t : Time) → minute_of_day z t < 1440
unfolding minute_of_day
minute_of_day-lt z t = omega arith
