-- ===== src/Stats/Bounds.antt =====
-- The bounds of the statistics.
use sounding.Prelude.{
  ◌⊎◌, inl, inr, ℕ, ◌≤◌, ◌<◌, ◌≡◌, refl, true, not, List, [], ◌∷◌, Text, length, get_or, All,
  All-map, All-keep_self, get_or-All, sort_by-All, length-sort_by, arith, if◌then◌else◌, Float,
  float, pos, ≤ℤ_trans, is_negative, ltb_float, leb_float, sort_by, length-keep, ◌≤ℤ◌,
}
use sounding.Arithmetic.{exact}
use sounding.Contract.{NodeStatusPing}
use sounding.Stats.{
  loss_percent, min_from, max_from, successes, failures, tail_index, sorted_tail,
  summarize_successes, summarize_ping,
}

abbrev pub IsNonneg : Float → Type 0
IsNonneg v = pos 0 ≤ℤ v

smaller : (v m : Float) → let m' = if ltb_float v m then v else m in (m' ≤ℤ m) × (m' ≤ℤ v)
smaller v m = ground arith

larger : (v m : Float) → let m' = if ltb_float m v then v else m in (m ≤ℤ m') × (v ≤ℤ m')
larger v m = ground arith

-- The minimum is at most the first value and every other.
pub min_from-le :
    (m : Float) (vs : List Float) → (min_from m vs ≤ℤ m) × All (λ v. min_from m vs ≤ℤ v) vs
unfolding min_from
min_from-le m [] = (omega arith, tt)
min_from-le m (v ∷ vs) =
    let m' = if ltb_float v m then v else m in
    let (below, all_below) = min_from-le m' vs in
    let (p, q) = smaller v m in
    (≤ℤ_trans (min_from m' vs) m' m below p, (≤ℤ_trans (min_from m' vs) m' v below q, all_below))

pub le-max_from :
    (m : Float) (vs : List Float) → (m ≤ℤ max_from m vs) × All (λ v. v ≤ℤ max_from m vs) vs
unfolding max_from
le-max_from m [] = (omega arith, tt)
le-max_from m (v ∷ vs) =
    let m' = if ltb_float m v then v else m in
    let (above, all_above) = le-max_from m' vs in
    let (p, q) = larger v m in
    (≤ℤ_trans m m' (max_from m' vs) p above, (≤ℤ_trans v m' (max_from m' vs) q above, all_above))

-- A bound below all values bounds the minimum.
pub le-min_from :
    (lo m : Float) (vs : List Float) → lo ≤ℤ m → All (λ v. lo ≤ℤ v) vs → lo ≤ℤ min_from m vs
unfolding min_from
le-min_from lo m [] p h = p
le-min_from lo m (v ∷ vs) p (q, h) =
    le-min_from lo (if ltb_float v m then v else m) vs (ground arith) h

pub successes-IsNonneg : (vals : List Float) → All IsNonneg (successes vals)
unfolding successes
successes-IsNonneg vals =
    All-map (λ v. not (is_negative v) ≡ true) IsNonneg (λ v e. ground arith) _
      (All-keep_self (λ v. not (is_negative v)) vals)

-- An element of the values in order lies between their bounds.
pub sorted-between :
    (lo hi : Float) (vals : List Float) (i : ℕ)
    → i < length vals
    → All (λ v. lo ≤ℤ v) vals
    → All (λ v. v ≤ℤ hi) vals
    → let x = get_or (sort_by leb_float vals) i (pos 0) in (lo ≤ℤ x) × (x ≤ℤ hi)
sorted-between lo hi vals i p h k =
    let fits : i < length (sort_by leb_float vals) = omega (arith, length-sort_by leb_float vals) in
    (
      get_or-All (λ v. lo ≤ℤ v) _ i (pos 0) fits (sort_by-All leb_float (λ v. lo ≤ℤ v) vals h),
      get_or-All (λ v. v ≤ℤ hi) _ i (pos 0) fits (sort_by-All leb_float (λ v. v ≤ℤ hi) vals k),
    )

tail_index-lt : (n : ℕ) → 0 < n → tail_index n < n
unfolding tail_index
tail_index-lt n h = omega arith

-- The numbers of a summary stand in their order, and the loss is the percentage of the failures.
pub record IsOrdered (vals : List Float) (p : NodeStatusPing) : Type 0 where
  pub nonneg : IsNonneg p.min
  pub min-tail : p.min ≤ℤ p.tail
  pub tail-max : p.tail ≤ℤ p.max
  pub failed-total : failures vals ≤ length vals
  pub loss :
      ((successes vals ≡ []) × (p.loss ≡ exact (float 100)))
      ⊎ (p.loss ≡ loss_percent (failures vals) (length vals))

failures-le : (vals : List Float) → failures vals ≤ length vals
unfolding failures
failures-le vals = length-keep is_negative vals

summarize_successes-IsOrdered :
    (name : Text) (latest : Float) (all vals : List Float)
    → successes all ≡ vals
    → All IsNonneg vals
    → IsOrdered all
        (summarize_successes name latest (loss_percent (failures all) (length all)) vals)
unfolding summarize_successes sorted_tail
summarize_successes-IsOrdered name latest all [] none_left h = record {
  nonneg = omega arith;
  min-tail = omega arith;
  tail-max = omega arith;
  failed-total = failures-le all;
  loss = inl (none_left, refl);
}
summarize_successes-IsOrdered name latest all (v ∷ vs) some_left h =
    let vals : List Float = v ∷ vs in
    let (lo, los) = min_from-le v vals in
    let (hi, his) = le-max_from v vals in
    let (c, d) =
      sorted-between (min_from v vals) (max_from v vals) vals (tail_index (length vals))
        (tail_index-lt (length vals) (omega arith)) los his in
    record {
      nonneg = le-min_from (pos 0) v vals h.0 h;
      min-tail = c;
      tail-max = d;
      failed-total = failures-le all;
      loss = inr refl;
    }

-- Whatever the window holds, the summary's minimum, tail and maximum stand in this order and are not negative; the
-- loss is what the code computes as the percentage of the failures among the values, of which there are no more than
-- values, or 100 if no probe succeeded.
pub summarize_ping-IsOrdered :
    (name : Text) (vals : List Float) → IsOrdered vals (summarize_ping name vals)
unfolding summarize_ping successes
summarize_ping-IsOrdered name [] = record {
  nonneg = omega arith;
  min-tail = omega arith;
  tail-max = omega arith;
  failed-total = failures-le [];
  loss = inl (refl, refl);
}
summarize_ping-IsOrdered name (v ∷ vs) =
    summarize_successes-IsOrdered name v (v ∷ vs) (successes (v ∷ vs)) refl
      (successes-IsNonneg (v ∷ vs))
