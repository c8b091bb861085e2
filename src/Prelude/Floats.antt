-- ===== src/Prelude/Floats.antt =====
-- A float64 is read as a number of thousandths. Sums, differences and orders of such numbers are
-- exact; a quotient is cut to a thousandth.
use Prim.Native.Nat.{ℕ, zero, suc, ◌+◌, ◌-◌, ◌*◌, ◌/◌, ◌≤◌}
use mathlib.Core.Bool.{Bool, true, false}
use native.Mathlib.Omega.{arith}
use sounding.Prelude.Tests.{ltb, leb, ◌==◌, if◌then◌else◌}
use mathlib.Core.Path.{◌≡◌}

-- `negsuc n` is -(n + 1).
pub data ℤ : Type 0 where
  pos : ℕ → ℤ
  negsuc : ℕ → ℤ

abbrev pub pos_part : ℤ → ℕ
pos_part (pos n) = n
pos_part (negsuc n) = 0

abbrev pub neg_part : ℤ → ℕ
neg_part (pos n) = 0
neg_part (negsuc n) = suc n

abbrev pub Float : Type 0
Float = ℤ

-- The float64 of an integer constant that is not negative.
abbrev pub float : ℕ → Float
float n = pos (n * 1000)

abbrev pub minus_one : Float
minus_one = negsuc 999

-- `a < b` and `a <= b`
abbrev pub ltb_float : Float → Float → Bool
ltb_float a b = ltb (pos_part a + neg_part b) (pos_part b + neg_part a)

abbrev pub leb_float : Float → Float → Bool
leb_float a b = leb (pos_part a + neg_part b) (pos_part b + neg_part a)

-- `v > 0`
abbrev pub is_positive : Float → Bool
is_positive v = ltb_float (pos 0) v

-- `v < 0`
abbrev pub is_negative : Float → Bool
is_negative v = ltb_float v (pos 0)

infix 50 ◌≤ℤ◌
abbrev pub ◌≤ℤ◌ : ℤ → ℤ → Type 0
a ≤ℤ b = pos_part a + neg_part b ≤ pos_part b + neg_part a

pub ≤ℤ_trans : (a b c : ℤ) → a ≤ℤ b → b ≤ℤ c → a ≤ℤ c
≤ℤ_trans a b c h k = omega arith

-- `if v <= 0 { d } else { v }`
abbrev pub int_or : ℤ → ℕ → ℕ
int_or (pos zero) d = d
int_or (pos (suc n)) d = suc n
int_or (negsuc n) d = d

-- `a + b`
unfoldable pub add_float : Float → Float → Float
add_float a b =
    let p = pos_part a + pos_part b in
    let n = neg_part a + neg_part b in if leb n p then pos (p - n) else negsuc (n - p - 1)

-- `a / float64(n)` for a positive n, cut towards zero.
unfoldable pub div_float : Float → ℕ → Float
div_float (pos a) n = pos (a / n)
div_float (negsuc a) n = if suc a / n == 0 then pos 0 else negsuc (suc a / n - 1)

pub ltb_float→lt : (a b : Float) → ltb_float a b ≡ true → a ≤ℤ b
ltb_float→lt a b h = ground arith

pub ≤ℤ_of_not_lt : (a b : Float) → ltb_float a b ≡ false → b ≤ℤ a
≤ℤ_of_not_lt a b h = ground arith
