-- ===== src/Collector/Tests.antt =====
-- Examples of the theorems on the collector.
use sounding.Prelude.{◌≡◌, ◌-◌, ◌*◌, refl, none, some, [], ◌∷◌, float, pos, if◌then◌else◌}
use sounding.Clock.{second}
use sounding.Collector.{Readings, Counters, new_collector, collect, byte_rate}
use sounding.Collector.Laws.{collect-rates, went_on}
use sounding.Prelude.{ℕ}

abbrev counters : ℕ → ℕ → Counters
counters up down = record { bytes_sent = up; bytes_recv = down }

abbrev sample : ℕ → Counters → Readings
sample now io = record {
  memory = none;
  swap = none;
  disk = none;
  load = none;
  temperatures = some (float 40 ∷ float 55 ∷ []);
  now = now;
  counters = some (io ∷ []);
  pids = none;
  uptime = none;
  percent = none;
}

abbrev before : Readings
before = sample (10 * second) (counters 1000 500)

abbrev later : Readings
later = sample (12 * second) (counters 5000 700)

rate_of_two : byte_rate 4000 (2 * second) ≡ float 2000
unfolding byte_rate
rate_of_two = refl

collect-rates_example :
    let s = (collect later (collect before (new_collector second)).1).0 in
    (s.net_out ≡ (
      if went_on (10 * second) (12 * second) (counters 1000 500) (counters 5000 700)
      then byte_rate (5000 - 1000) (12 * second - 10 * second)
      else pos 0))
    × (s.net_in ≡ (
        if went_on (10 * second) (12 * second) (counters 1000 500) (counters 5000 700)
        then byte_rate (700 - 500) (12 * second - 10 * second)
        else pos 0))
    × (s.net_total_up ≡ float 5000)
    × (s.net_total_down ≡ float 700)
collect-rates_example =
    collect-rates (new_collector second) before later (counters 1000 500) (counters 5000 700) [] []
      refl refl
