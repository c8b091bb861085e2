-- ===== src/Stats/Percentiles.antt =====
-- internal/api/rpc_komari.go: percentile, of the sorted values.
use sounding.Prelude.{
  ℕ, zero, suc, ◌*◌, ◌≤◌, ◌<◌, ◌≡◌, true, false, List, [], ◌∷◌, length, get_or, arith, Float, pos,
  leb_float, sort_by, IsSorted, sort_by-IsSorted, length-sort_by, ◌≤ℤ◌, get_or-All,
}
use sounding.Stats.{percentile_index, percentile}

leb_float_total : (a b : Float) → leb_float a b ≡ false → leb_float b a ≡ true
leb_float_total a b h = ground arith

leb_float_trans :
    (a b c : Float) → leb_float a b ≡ true → leb_float b c ≡ true → leb_float a c ≡ true
leb_float_trans a b c h k = ground arith

get_or_mono :
    (xs : List Float) (i j : ℕ)
    → IsSorted leb_float xs
    → i ≤ j
    → j < length xs
    → get_or xs i (pos 0) ≤ℤ get_or xs j (pos 0)
get_or_mono [] i j s p q = elim q [ ]
get_or_mono (x ∷ xs) zero zero s p q = omega arith
get_or_mono (x ∷ xs) zero (suc j) (h, s) p q =
    let le : leb_float x (get_or xs j (pos 0)) ≡ true =
      get_or-All (λ y. leb_float x y ≡ true) xs j (pos 0) (omega arith) h in
    ground arith
get_or_mono (x ∷ xs) (suc i) zero s p q = absurd (omega arith)
get_or_mono (x ∷ xs) (suc i) (suc j) (h, s) p q = get_or_mono xs i j s (omega arith) (omega arith)

pub percentile_index-lt : (p n : ℕ) → 0 < n → percentile_index p n < n
unfolding percentile_index
percentile_index-lt p n h = ground arith

rank_mono : (p q n : ℕ) → p ≤ q → p * n ≤ q * n
rank_mono p q n h = grind arith

percentile_index_mono : (p q n : ℕ) → p ≤ q → percentile_index p n ≤ percentile_index q n
unfolding percentile_index
percentile_index_mono p q n h = ground (arith, rank_mono p q n h)

-- A higher rank never gives a smaller percentile, of any values.
pub percentile_mono : (vals : List Float) (p q : ℕ) → p ≤ q → percentile vals p ≤ℤ percentile vals q
unfolding percentile
percentile_mono [] p q h = omega arith
percentile_mono (v ∷ vs) p q h =
    let n : ℕ = length (v ∷ vs) in
    get_or_mono (sort_by leb_float (v ∷ vs)) (percentile_index p n) (percentile_index q n)
      (sort_by-IsSorted leb_float leb_float_total leb_float_trans (v ∷ vs))
      (percentile_index_mono p q n h)
      (omega (arith, length-sort_by leb_float (v ∷ vs), percentile_index-lt q n))
