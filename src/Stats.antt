-- ===== src/Stats.antt =====
-- The statistics of probe values: `summarizePing` of internal/store/adapters.go and
-- `percentile` and `stats` of internal/api/rpc_komari.go. The factor 0.95 is 95 / 100, which gives the same index
-- for every window below 100000 values, and p / 100 * n is rounded up exactly.
pub mod Bounds
pub mod Percentiles
pub mod Spreads
mod Tests
use sounding.Prelude.{
  ℕ, ◌+◌, ◌-◌, ◌*◌, ◌/◌, ◌≡◌, refl, Bool, true, false, not, List, [], ◌∷◌, Text, length, get_or,
  keep, if◌then◌else◌, ltb, leb, Float, float, pos, minus_one, is_negative, is_positive, ltb_float,
  leb_float, sort_by,
}
use sounding.Arithmetic.{Computed, exact, plus, minus, times, over, root_of}
use sounding.Contract.{NodeStatusPing}

-- The loop that keeps the values that are not negative.
unfoldable pub successes : List Float → List Float
successes vals = keep (λ v. not (is_negative v)) vals

unfoldable pub failures : List Float → ℕ
failures vals = length (keep is_negative vals)

-- The loops over the sum, the minimum and the maximum so far.
unfoldable pub sum_from : Computed → List Float → Computed
sum_from acc [] = acc
sum_from acc (v ∷ vs) = sum_from (plus acc (exact v)) vs

unfoldable pub min_from : Float → List Float → Float
min_from m [] = m
min_from m (v ∷ vs) = min_from (if ltb_float v m then v else m) vs

unfoldable pub max_from : Float → List Float → Float
max_from m [] = m
max_from m (v ∷ vs) = max_from (if ltb_float m v then v else m) vs

unfoldable pub average : List Float → Computed
unfolding sum_from
average vals = over (sum_from (exact (pos 0)) vals) (exact (float (length vals)))

-- `sorted[int(float64(len(sorted)-1)*0.95)]`
unfoldable pub tail_index : ℕ → ℕ
tail_index n = (n - 1) * 95 / 100

unfoldable pub sorted_tail : List Float → Float
unfolding tail_index
sorted_tail vals = get_or (sort_by leb_float vals) (tail_index (length vals)) (pos 0)

-- `float64(fail) / float64(total) * 100`
unfoldable pub loss_percent : ℕ → ℕ → Computed
loss_percent fail total =
    times (over (exact (float fail)) (exact (float total))) (exact (float 100))

lost : Text → NodeStatusPing
lost name = record {
  name = name;
  latest = minus_one;
  avg = exact (pos 0);
  tail = pos 0;
  loss = exact (float 100);
  min = pos 0;
  max = pos 0;
}

-- What follows once the successes are known.
summarize_successes : Text → Float → Computed → List Float → NodeStatusPing
unfolding lost
summarize_successes name latest loss [] = lost name
summarize_successes name latest loss (v ∷ vs) = record {
  name = name;
  latest = latest;
  avg = average (v ∷ vs);
  tail = sorted_tail (v ∷ vs);
  loss = loss;
  min = min_from v (v ∷ vs);
  max = max_from v (v ∷ vs);
}

-- The newest value stands first.
unfoldable pub summarize_ping : Text → List Float → NodeStatusPing
unfolding lost summarize_successes successes failures loss_percent
summarize_ping name [] = lost name
summarize_ping name (v ∷ vs) =
    summarize_successes name v (loss_percent (failures (v ∷ vs)) (length (v ∷ vs)))
      (successes (v ∷ vs))

-- `int(math.Ceil(p/100*float64(n))) - 1`, moved into the range of the indices.
unfoldable pub percentile_index : ℕ → ℕ → ℕ
percentile_index p n = let idx = (p * n + 99) / 100 - 1 in if leb n idx then n - 1 else idx

unfoldable pub percentile : List Float → ℕ → Float
unfolding percentile_index
percentile [] p = pos 0
percentile (v ∷ vs) p =
    get_or (sort_by leb_float (v ∷ vs)) (percentile_index p (length (v ∷ vs))) (pos 0)

-- The loop over `(v - avg) * (v - avg)`.
unfoldable pub squares_from : Computed → Computed → List Float → Computed
squares_from avg acc [] = acc
squares_from avg acc (v ∷ vs) =
    let d = minus (exact v) avg in squares_from avg (plus acc (times d d)) vs

-- `math.Sqrt(sq / float64(len(vals)))`
unfoldable pub deviation : Computed → List Float → Computed
unfolding squares_from
deviation avg vals =
    root_of (over (squares_from avg (exact (pos 0)) vals) (exact (float (length vals))))

-- What the RPC methods say of the successes of a task: `stats`, the percentiles and their ratio.
pub record Spread : Type 0 where
  pub min : Float
  pub max : Float
  pub avg : Computed
  pub stddev : Computed
  pub p50 : Float
  pub p99 : Float
  pub ratio : Computed

-- Without a success, the fields stay zero.
unfoldable pub spread : List Float → Spread
unfolding average min_from max_from deviation percentile
spread [] = record {
  min = pos 0;
  max = pos 0;
  avg = exact (pos 0);
  stddev = exact (pos 0);
  p50 = pos 0;
  p99 = pos 0;
  ratio = exact (pos 0);
}
spread (v ∷ vs) =
    let vals = v ∷ vs in
    let p50 = percentile vals 50 in
    let p99 = percentile vals 99 in
    record {
      min = min_from v vals;
      max = max_from v vals;
      avg = average vals;
      stddev = deviation (average vals) vals;
      p50 = p50;
      p99 = p99;
      ratio = if is_positive p50 then over (exact p99) (exact p50) else exact (pos 0);
    }
