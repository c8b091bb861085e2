-- ===== src/Rpc/Numbers.antt =====
-- internal/api/rpc_komari.go: anyToInt reads the ids that itoa writes.
use sounding.Prelude.{
  ℕ, zero, suc, ◌+◌, ◌-◌, ◌*◌, ◌/◌, ◌%◌, ◌≤◌, ◌≡◌, ◌≢◌, refl, ap, true, false, inl, inr, Bool-cases,
  List, [], ◌∷◌, ◌++◌, Text, arith, ltb, ◌==◌, some, pos, All, All-append,
}
use sounding.Json.{Value}
use sounding.Decimal.{digits, decimal, is_digit, read_digits, read_number, atoi}
use sounding.Contract.{PingRecord, AdminProbe}
use sounding.Rpc.Records.{any_to_int}
use sounding.Rpc.Tasks.{task_stats}

-- The digits before the last one give the number before the last step.
read_digits-append :
    (n c : ℕ) (s : Text) (m : ℕ)
    → read_digits n s ≡ some m
    → is_digit c ≡ true
    → read_digits n (s ++ c ∷ []) ≡ some (m * 10 + (c - b'0'))
unfolding read_digits
read_digits-append n c [] m h d = rw (read_digits, d) (ground (arith, h))
read_digits-append n c (x ∷ s) m h d = elim (Bool-cases (is_digit x)) [
  | inl e ↦
      rw (read_digits, e)
        (read_digits-append (n * 10 + (x - b'0')) c s m (rw (read_digits, e) at h) d)
  | inr e ↦ cc (rw (read_digits, e) at h)
]

last_digit : (n : ℕ) → is_digit (b'0' + n % 10) ≡ true
unfolding is_digit
last_digit n = ground arith

rest_and_last : (n : ℕ) → n / 10 * 10 + (b'0' + n % 10 - b'0') ≡ n
rest_and_last n = omega arith

read_digits-digits : (fuel n : ℕ) → n ≤ fuel → read_digits 0 (digits fuel n) ≡ some n
unfolding digits read_digits
read_digits-digits zero n h = rw (read_digits, last_digit n) (ap some (omega arith))
read_digits-digits (suc fuel) n h = elim (Bool-cases (ltb n 10)) [
  | inl one ↦ rw (one, read_digits, last_digit n) (ap some (ground arith))
  | inr more ↦
      rw
        (
          more,
          read_digits-append 0 (b'0' + n % 10) (digits fuel (n / 10)) (n / 10)
              (read_digits-digits fuel (n / 10) (ground arith)) (last_digit n),
        )
        (ap some (rest_and_last n))
]

digits-All : (fuel n : ℕ) → All (λ c. is_digit c ≡ true) (digits fuel n)
unfolding digits
digits-All zero n = (last_digit n, tt)
digits-All (suc fuel) n = elim (Bool-cases (ltb n 10)) [
  | inl one ↦ rw one (last_digit n, tt)
  | inr more ↦
      rw more (All-append _ (digits fuel (n / 10)) _ (digits-All fuel (n / 10)) (last_digit n, tt))
]

no_minus : (c : ℕ) → is_digit c ≡ true → (c == b'-') ≡ false
unfolding is_digit
no_minus c h = ground arith

no_plus : (c : ℕ) → is_digit c ≡ true → (c == b'+') ≡ false
unfolding is_digit
no_plus c h = ground arith

append-ne-nil : (s : Text) (c : ℕ) → s ++ c ∷ [] ≢ []
append-ne-nil [] c h = cc
append-ne-nil (x ∷ s) c h = cc

atoi-unsigned :
    (s : Text) (n : ℕ)
    → All (λ c. is_digit c ≡ true) s
    → read_digits 0 s ≡ some n
    → s ≢ []
    → n ≤ 9223372036854775807
    → atoi s ≡ some (pos n)
unfolding atoi read_number
atoi-unsigned [] n h k p q = absurd (p refl)
atoi-unsigned (c ∷ s) n (d, h) k p q = rw (no_minus c d, no_plus c d, k) (ground arith)

digits-ne-nil : (fuel n : ℕ) → digits fuel n ≢ []
unfolding digits
digits-ne-nil zero n h = cc
digits-ne-nil (suc fuel) n h = elim (Bool-cases (ltb n 10)) [
  | inl one ↦ cc (rw one at h)
  | inr more ↦ append-ne-nil (digits fuel (n / 10)) (b'0' + n % 10) (rw more at h)
]

-- The id of a task that getPingMetricStats writes as a text is read back by getPublicPingRecords, if an int
-- of 64 bits holds it.
pub any_to_int-task_stats :
    (entity : Text) (tasks : List AdminProbe) (id : ℕ) (recs : List PingRecord)
    → id ≤ 9223372036854775807
    → any_to_int (Value.text (task_stats entity tasks id recs).task_id) ≡ pos id
unfolding any_to_int task_stats decimal
any_to_int-task_stats entity tasks id recs h =
    rw
      (
        any_to_int,
        atoi-unsigned (digits id id) id (digits-All id id) (read_digits-digits id id (omega arith))
            (digits-ne-nil id id) h,
      )
      refl
