-- ===== src/Stats/Spreads.antt =====
-- internal/api/rpc_komari.go: stats and percentile, as the RPC methods use them.
use sounding.Prelude.{
  ℕ, ◌≡◌, List, [], ◌∷◌, length, All, arith, Float, pos, ◌≤ℤ◌, is_positive, true, false, refl, ◌⊎◌,
  inl, inr, Bool-cases,
}
use sounding.Arithmetic.{exact, over}
use sounding.Stats.{min_from, max_from, percentile, percentile_index, spread, Spread}
use sounding.Stats.Bounds.{IsNonneg, min_from-le, le-max_from, le-min_from, sorted-between}
use sounding.Stats.Percentiles.{percentile_mono, percentile_index-lt}

-- The numbers of a spread stand in their order, and the ratio is the one of the percentiles.
pub record IsOrderedSpread (s : Spread) : Type 0 where
  pub nonneg : IsNonneg s.min
  pub min-p50 : s.min ≤ℤ s.p50
  pub p50-p99 : s.p50 ≤ℤ s.p99
  pub p99-max : s.p99 ≤ℤ s.max
  pub ratio :
      ((is_positive s.p50 ≡ false) × (s.ratio ≡ exact (pos 0)))
      ⊎ ((is_positive s.p50 ≡ true) × (s.ratio ≡ over (exact s.p99) (exact s.p50)))

pub spread-IsOrderedSpread : (vals : List Float) → All IsNonneg vals → IsOrderedSpread (spread vals)
unfolding spread percentile
spread-IsOrderedSpread [] h = record {
  nonneg = omega arith;
  min-p50 = omega arith;
  p50-p99 = omega arith;
  p99-max = omega arith;
  ratio = inl (refl, refl);
}
spread-IsOrderedSpread (v ∷ vs) h =
    let vals : List Float = v ∷ vs in
    let n : ℕ = length vals in
    let lo : Float = min_from v vals in
    let hi : Float = max_from v vals in
    let (below, los) = min_from-le v vals in
    let (above, his) = le-max_from v vals in
    let nonneg = le-min_from (pos 0) v vals h.0 h in
    let at_rank = λ (p : ℕ).
      sorted-between lo hi vals (percentile_index p n) (percentile_index-lt p n (omega arith)) los
        his in
    let mono : percentile vals 50 ≤ℤ percentile vals 99 =
      percentile_mono vals 50 99 (omega arith) in
    record {
      nonneg = nonneg;
      min-p50 = (at_rank 50).0;
      p50-p99 = mono;
      p99-max = (at_rank 99).1;
      ratio = elim (Bool-cases (is_positive (percentile vals 50))) [
        | inl e ↦ inr (e, rw e refl)
        | inr e ↦ inl (e, rw e refl)
      ];
    }
