-- ===== src/Prelude/Groups.antt =====
-- Go maps from keys to lists of rows, which a loop fills row by row: `m[k] = append(m[k], row)`.
use mathlib.Core.Path.{◌≡◌, refl, ◌∙◌, sym, ap}
use mathlib.Core.Bool.{Bool, true, false}
use mathlib.Core.Logic.{inl, inr}
use mathlib.Core.List.{List, [], ◌∷◌, ◌++◌, append_assoc, append-nil}
use sounding.Prelude.Tests.{if◌then◌else◌, Bool-cases}
use sounding.Prelude.Lists.{All, All-append, keep}
use sounding.Prelude.Table.{Key}

pub keep-append {ℓ} :
    {A : Type ℓ} (p : A → Bool) (xs ys : List A) → keep p (xs ++ ys) ≡ keep p xs ++ keep p ys
keep-append p [] ys = refl
keep-append p (x ∷ xs) ys = elim (Bool-cases (p x)) [
  | inl e ↦ rw (e, keep-append p xs ys) refl
  | inr e ↦ rw (e, keep-append p xs ys) refl
]

module _ {ℓ} {A K : Type ℓ} (t : Key A K) where
  open t use {key, eqb, eqb_iff}

  unfoldable pub put : A → List (K × List A) → List (K × List A)
  put x [] = (key x, x ∷ []) ∷ []
  put x ((k, xs) ∷ groups) =
      if eqb (key x) k then (k, xs ++ x ∷ []) ∷ groups else (k, xs) ∷ put x groups

  unfoldable pub put_all : List (K × List A) → List A → List (K × List A)
  unfolding put
  put_all groups [] = groups
  put_all groups (x ∷ xs) = put_all (put x groups) xs

  -- The map after the loop, in the order of the first rows.
  unfoldable pub group : List A → List (K × List A)
  unfolding put_all
  group xs = put_all [] xs

  -- `m[k]`
  unfoldable pub rows_of : K → List (K × List A) → List A
  rows_of k [] = []
  rows_of k ((j, xs) ∷ groups) = if eqb j k then xs else rows_of k groups

  -- The rows of a key, in the order of the loop.
  abbrev pub with_key : K → List A → List A
  with_key k xs = keep (λ x. eqb (key x) k) xs

  eqb-sym : (j k : K) → eqb j k ≡ true → eqb k j ≡ true
  eqb-sym j k h = (eqb_iff k j).1 (sym ((eqb_iff j k).0 h))

  own_key : (x : A) (j k : K) → eqb (key x) j ≡ true → eqb j k ≡ true → eqb (key x) k ≡ true
  own_key x j k h p = (eqb_iff (key x) k).1 ((eqb_iff (key x) j).0 h ∙ (eqb_iff j k).0 p)

  other_key : (x : A) (j k : K) → eqb (key x) j ≡ true → eqb j k ≡ false → eqb (key x) k ≡ false
  other_key x j k h p = rw ((eqb_iff (key x) j).0 h) p

  foreign_key : (x : A) (j k : K) → eqb (key x) j ≡ false → eqb j k ≡ true → eqb (key x) k ≡ false
  foreign_key x j k h p = rw (sym ((eqb_iff j k).0 p)) h

  rows_of-put :
      (k : K) (x : A) (groups : List (K × List A))
      → rows_of k (put x groups) ≡ rows_of k groups ++ with_key k (x ∷ [])
  unfolding rows_of put
  rows_of-put k x [] = refl
  rows_of-put k x ((j, xs) ∷ groups) = elim (Bool-cases (eqb (key x) j)) [
    | inl here ↦ elim (Bool-cases (eqb j k)) [
      | inl own ↦ rw (here, own, own_key x j k here own) refl
      | inr other ↦
          rw (here, other, other_key x j k here other) (sym (append-nil (rows_of k groups)))
    ]
    | inr later ↦ elim (Bool-cases (eqb j k)) [
      | inl own ↦ rw (later, own, foreign_key x j k later own) (sym (append-nil xs))
      | inr other ↦ rw (later, other) (rows_of-put k x groups)
    ]
  ]

  rows_of-put_all :
      (k : K) (groups : List (K × List A)) (xs : List A)
      → rows_of k (put_all groups xs) ≡ rows_of k groups ++ with_key k xs
  unfolding put_all
  rows_of-put_all k groups [] = sym (append-nil (rows_of k groups))
  rows_of-put_all k groups (x ∷ xs) =
      rows_of-put_all k (put x groups) xs
      ∙ ap (λ r. r ++ with_key k xs) (rows_of-put k x groups)
      ∙ append_assoc (rows_of k groups) (with_key k (x ∷ [])) (with_key k xs)
      ∙ ap (λ r. rows_of k groups ++ r) (sym (keep-append (λ x. eqb (key x) k) (x ∷ []) xs))

  -- The entry of a key has all its rows, in their order.
  pub rows_of-group : (k : K) (xs : List A) → rows_of k (group xs) ≡ with_key k xs
  unfolding group rows_of
  rows_of-group k xs = rows_of-put_all k [] xs

module _ {ℓ κ} {A K : Type ℓ} (t : Key A K) (P : A → Type κ) where
  put-All :
      (x : A) (groups : List (K × List A))
      → P x
      → All (λ g. All P g.1) groups
      → All (λ g. All P g.1) (put t x groups)
  unfolding put
  put-All x [] p h = ((p, tt), tt)
  put-All x ((j, xs) ∷ groups) p (q, h) = elim (Bool-cases (t.eqb (t.key x) j)) [
    | inl here ↦ rw here (All-append P xs (x ∷ []) q (p, tt), h)
    | inr later ↦ rw later (q, put-All x groups p h)
  ]

  put_all-All :
      (groups : List (K × List A)) (xs : List A)
      → All (λ g. All P g.1) groups
      → All P xs
      → All (λ g. All P g.1) (put_all t groups xs)
  unfolding put_all
  put_all-All groups [] h k = h
  put_all-All groups (x ∷ xs) h (p, k) = put_all-All (put t x groups) xs (put-All x groups p h) k

  -- What holds of all rows holds of the rows of each entry.
  pub group-All : (xs : List A) → All P xs → All (λ g. All P g.1) (group t xs)
  unfolding group
  group-All xs h = put_all-All [] xs tt h
