-- ===== src/Rpc/TaskLaws.antt =====
-- internal/api/rpc_komari.go: the numbers of the tasks' summaries.
use sounding.Prelude.{
  ℕ, ◌-◌, ◌≤◌, ◌<◌, ◌≡◌, true, refl, false, ◌⊎◌, inl, inr, Bool-cases, not, List, [], ◌∷◌, map,
  Text, length, length-keep, All, arith, ◌==◌, pos, is_negative, is_positive, ◌≤ℤ◌, keep,
}
use sounding.Arithmetic.{exact, over}
use sounding.Contract.{PingRecord, AdminProbe}
use sounding.Stats.{successes, loss_percent}
use sounding.Stats.Bounds.{IsNonneg, successes-IsNonneg}
use sounding.Stats.Spreads.{spread-IsOrderedSpread}
use sounding.Rpc.Types.{PingTaskInfo}
use sounding.Rpc.Tasks.{task_info, valid_values, infos_of, is_shown}

pub length-map : {A B : Type 0} (f : A → B) (xs : List A) → length (map f xs) ≡ length xs
length-map f [] = refl
length-map f (x ∷ xs) = rw (length-map f xs) refl

pub valid-le : (recs : List PingRecord) → length (valid_values recs) ≤ length recs
unfolding valid_values successes
valid-le recs = omega (
  arith,
  length-map (λ (r : PingRecord). r.value) recs,
  length-keep (λ v. not (is_negative v)) (map (λ r. r.value) recs),
)

map-All :
    {A B : Type 0} (P : B → Type 0) (f : A → B)
    → ((a : A) → P (f a))
    → (xs : List A) → All P (map f xs)
map-All P f h [] = tt
map-All P f h (x ∷ xs) = (h x, map-All P f h xs)

-- The numbers of a summary are those of a window of probes.
pub record IsSummary (t : PingTaskInfo) : Type 0 where
  pub valid-total : t.valid ≤ t.total
  pub loss :
      ((t.total ≡ 0) × (t.loss ≡ exact (pos 0)))
      ⊎ ((0 < t.total) × (t.loss ≡ loss_percent (t.total - t.valid) t.total))
  pub nonneg : IsNonneg t.min
  pub min-p50 : t.min ≤ℤ t.p50
  pub p50-p99 : t.p50 ≤ℤ t.p99
  pub p99-max : t.p99 ≤ℤ t.max
  pub ratio :
      ((is_positive t.p50 ≡ false) × (t.ratio ≡ exact (pos 0)))
      ⊎ ((is_positive t.p50 ≡ true) × (t.ratio ≡ over (exact t.p99) (exact t.p50)))

zero_of : (n : ℕ) → (n == 0) ≡ true → n ≡ 0
zero_of n h = ground arith

positive_of : (n : ℕ) → (n == 0) ≡ false → 0 < n
positive_of n h = ground arith

task_info-IsSummary : (t : AdminProbe) (recs : List PingRecord) → IsSummary (task_info t recs)
unfolding task_info valid_values
task_info-IsSummary t recs =
    let s =
      spread-IsOrderedSpread (valid_values recs) (successes-IsNonneg (map (λ r. r.value) recs)) in
    record {
      valid-total = valid-le recs;
      loss = elim (Bool-cases (length recs == 0)) [
        | inl empty ↦ inl (zero_of (length recs) empty, rw empty refl)
        | inr more ↦ inr (positive_of (length recs) more, rw more refl)
      ];
      nonneg = s.nonneg;
      min-p50 = s.min-p50;
      p50-p99 = s.p50-p99;
      p99-max = s.p99-max;
      ratio = s.ratio;
    }

-- In each summary of getPublicPingTasks, for any records and client, no more values are valid than there are; the
-- loss is what the code computes as the percentage of the others, or zero without a record; the minimum, the median,
-- the 99th percentile and the maximum stand in this order and are not negative; and the ratio is the quotient of the
-- percentiles if the median is positive, or else zero.
pub infos_of-IsSummary :
    (client : Text) (tasks : List AdminProbe) (records : List PingRecord)
    → All IsSummary (infos_of client tasks records)
unfolding infos_of
infos_of-IsSummary client tasks records =
    map-All IsSummary _ (λ t. task_info-IsSummary t _) (keep (is_shown client) tasks)
