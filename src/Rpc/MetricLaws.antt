-- ===== src/Rpc/MetricLaws.antt =====
-- internal/api/rpc_komari.go: the series of a task's probes against its statistics.
use sounding.Prelude.{
  suc, false, ◌==◌, ℕ, ◌+◌, ◌-◌, ◌≡◌, refl, sym, ap, ◌∙◌, inl, inr, Bool-cases, List, [], ◌∷◌, map,
  Text, length, arith, none, some, Float, pos, is_negative, float, if◌then◌else◌, ◌≤◌,
}
use sounding.Arithmetic.{Computed, Arith, eval, exact, plus}
use sounding.Contract.{PingRecord, AdminProbe}
use sounding.Stats.{successes, spread, average, sum_from}
use sounding.Rpc.Types.{MetricPoint, MetricSeries, PingMetricTaskStats}
use sounding.Rpc.Tasks.{task_stats, valid_values}
use sounding.Rpc.TaskLaws.{length-map, valid-le}
use sounding.Rpc.Metrics.{latency_series, loss_series, ping_series, loss_of}

abbrev value_of : MetricPoint → Float
value_of p = elim p.value [ none ↦ pos 0 | some v ↦ v ]

-- The values of a series, in order.
abbrev pub values : MetricSeries → List Float
values s = map value_of s.points

latency_values :
    (entity : Text) (id : ℕ) (recs : List PingRecord)
    → values (latency_series entity id recs) ≡ valid_values recs
unfolding latency_series ping_series valid_values successes
latency_values entity id [] = refl
latency_values entity id (r ∷ recs) = elim (Bool-cases (is_negative r.value)) [
  | inl failed ↦ rw failed (latency_values entity id recs)
  | inr fine ↦ rw (fine, latency_values entity id recs) refl
]

abbrev lost : List PingRecord → ℕ
lost recs = length recs - length (valid_values recs)

loss_values :
    (entity : Text) (id : ℕ) (recs : List PingRecord)
    → values (loss_series entity id recs) ≡ map loss_of recs
unfolding loss_series ping_series
loss_values entity id [] = refl
loss_values entity id (r ∷ recs) = rw (loss_values entity id recs) refl

-- The mean of values, or zero without any.
abbrev pub mean_of : List Float → Computed
mean_of [] = exact (pos 0)
mean_of (v ∷ vs) = average (v ∷ vs)

mean_of-spread : (vals : List Float) → mean_of vals ≡ (spread vals).avg
unfolding spread
mean_of-spread [] = refl
mean_of-spread (v ∷ vs) = refl

-- What a float64 promises of a sum of whole numbers: up to 2^53 it is not rounded.
pub record WholeSums (ar : Arith) : Type 0 where
  pub whole_sum :
      (m n : ℕ) → m + n ≤ 9_007_199_254_740_992 → ar.add (float m) (float n) ≡ float (m + n)

abbrev failed : PingRecord → ℕ
failed r = if is_negative r.value then 1 else 0

loss_of-failed : (r : PingRecord) → loss_of r ≡ float (failed r)
unfolding loss_of
loss_of-failed r = ground arith

-- The number of failures of a list, counted on.
count_from : ℕ → List PingRecord → ℕ
count_from n [] = n
count_from n (r ∷ recs) = count_from (n + failed r) recs

failed-le : (r : PingRecord) → failed r ≤ 1
failed-le r = ground arith

count_from-lost : (n : ℕ) (recs : List PingRecord) → count_from n recs ≡ n + lost recs
unfolding count_from valid_values successes
count_from-lost n [] = omega arith
count_from-lost n (r ∷ recs) = elim (Bool-cases (is_negative r.value)) [
  | inl gone ↦ rw gone (omega (arith, count_from-lost (n + 1) recs, valid-le recs))
  | inr fine ↦ rw fine (omega (arith, count_from-lost (n + 0) recs, valid-le recs))
]

sum-losses :
    (ar : Arith)
    → WholeSums ar
    → (c : Computed) (n : ℕ) (recs : List PingRecord) → eval ar c ≡ float n
    → n + length recs ≤ 9_007_199_254_740_992
    → eval ar (sum_from c (map loss_of recs)) ≡ float (count_from n recs)
unfolding sum_from count_from
sum-losses ar w c n [] e h = e
sum-losses ar w c n (r ∷ recs) e h =
    sum-losses ar w (plus c (exact (loss_of r))) (n + failed r) recs
      (ap (λ x. ar.add x (loss_of r)) e
        ∙ ap (ar.add (float n)) (loss_of-failed r)
        ∙ w.whole_sum n (failed r) (omega (arith, failed-le r)))
      (omega (arith, failed-le r))

suc_nonzero : (n : ℕ) → (suc n == 0) ≡ false
suc_nonzero n = ground arith

zero_plus : (n : ℕ) → 0 + n ≡ n
zero_plus n = omega arith

mean-losses :
    (ar : Arith)
    → WholeSums ar
    → (entity : Text) (tasks : List AdminProbe) (id : ℕ) (recs : List PingRecord)
    → length recs ≤ 9_007_199_254_740_992
    → eval ar (mean_of (map loss_of recs)) ≡ eval ar (task_stats entity tasks id recs).loss
unfolding average task_stats
mean-losses ar w entity tasks id [] h = refl
mean-losses ar w entity tasks id (r ∷ recs) h =
    rw
      (
        sum-losses ar w (exact (pos 0)) 0 (r ∷ recs) refl (omega arith),
        count_from-lost 0 (r ∷ recs),
        length-map loss_of (r ∷ recs),
        suc_nonzero (length recs),
        zero_plus (lost (r ∷ recs)),
      )
      refl

latency_count :
    (entity : Text) (id : ℕ) (recs : List PingRecord)
    → (latency_series entity id recs).count ≡ length (valid_values recs)
unfolding latency_series ping_series
latency_count entity id recs =
    sym (length-map value_of (latency_series entity id recs).points)
    ∙ ap length (latency_values entity id recs)

-- The series and the statistics of one task say the same.
pub record IsAgreed (ar : Arith) (latency loss : MetricSeries) (st : PingMetricTaskStats)
    : Type 0 where
  pub valid : latency.count ≡ st.valid
  pub mean : mean_of (values latency) ≡ st.avg
  pub total : loss.count ≡ st.total
  pub ratio : eval ar (mean_of (values loss)) ≡ eval ar st.loss

-- For up to 2^53 records of a task, the latency series of queryMetrics has as many points as getPingMetricStats
-- counts valid ones, and their mean is its average, computed in the same way; the loss series has a point for each
-- record, and their mean is its loss, if sums of whole numbers up to 2^53 are not rounded. A mean of no points is zero.
pub task_series-IsAgreed :
    (ar : Arith) (entity : Text) (tasks : List AdminProbe) (id : ℕ) (recs : List PingRecord)
    → WholeSums ar
    → length recs ≤ 9_007_199_254_740_992
    → IsAgreed ar
        (latency_series entity id recs)
        (loss_series entity id recs)
        (task_stats entity tasks id recs)
unfolding task_stats loss_series ping_series
task_series-IsAgreed ar entity tasks id recs w h = record {
  valid = latency_count entity id recs;
  mean = rw (latency_values entity id recs) (mean_of-spread (valid_values recs));
  total = length-map _ recs;
  ratio = rw (loss_values entity id recs) (mean-losses ar w entity tasks id recs h);
}
