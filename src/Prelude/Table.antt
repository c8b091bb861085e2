-- ===== src/Prelude/Table.antt =====
-- A table with a unique key, as a list of rows: INSERT … ON CONFLICT DO UPDATE, DELETE by the key, and
-- the row of a key.
use mathlib.Core.Path.{◌≡◌, refl, ◌∙◌, ap}
use mathlib.Core.Logic.{◌↔◌, ◌≢◌, inl, inr}
use mathlib.Core.Bool.{Bool, true, not}
use mathlib.Core.List.{List, [], ◌∷◌}
use mathlib.Core.Option.{Option, none, some}
use native.Mathlib.Omega.{arith}
use sounding.Prelude.Tests.{if◌then◌else◌, Bool-cases}
use sounding.Prelude.Sorting.{insert_sorted, sort_by, sort_by-All}
use sounding.Prelude.Lists.{All, keep, find_first, All-keep}

-- A key of a table, with the test that SQL's `=` makes.
pub record Key {ℓ} (A K : Type ℓ) : Type ℓ where
  pub key : A → K
  pub eqb : K → K → Bool
  pub eqb_iff : (j k : K) → (eqb j k ≡ true) ↔ (j ≡ k)

module _ {ℓ} {A K : Type ℓ} (t : Key A K) where
  open t use {key, eqb, eqb_iff}

  abbrev pub find_row : K → List A → Option A
  find_row k = find_first (λ r. eqb (key r) k)

  -- The row of the new row's key is merged with the new row; without one the new row is appended.
  unfoldable pub upsert : (A → A) → A → List A → List A
  upsert merge new [] = new ∷ []
  upsert merge new (r ∷ rows) =
      if eqb (key r) (key new) then merge r ∷ rows else r ∷ upsert merge new rows

  unfoldable pub delete : K → List A → List A
  delete k rows = keep (λ r. not (eqb (key r) k)) rows

  abbrev pub HasUniqueKeys : List A → Type ℓ
  HasUniqueKeys [] = Unit
  HasUniqueKeys (r ∷ rows) = All (λ x. key x ≢ key r) rows × HasUniqueKeys rows

  -- What the key of the new row has after the statement.
  abbrev pub merged : (A → A) → A → Option A → A
  merged merge new none = new
  merged merge new (some r) = merge r

  pub find_row-upsert :
      (merge : A → A) (new : A) (rows : List A) (k : K)
      → ((r : A) → key (merge r) ≡ key r)
      → find_row k (upsert merge new rows) ≡ (
          if eqb (key new) k
          then some (merged merge new (find_row (key new) rows))
          else find_row k rows)
  unfolding upsert
  find_row-upsert merge new [] k h = refl
  find_row-upsert merge new (r ∷ rows) k h = ground (
    arith,
    find_row-upsert merge new rows k h,
    h r,
    eqb_iff (key new) k,
    eqb_iff (key r) k,
    eqb_iff (key r) (key new),
    eqb_iff (key (merge r)) k,
  )

  upsert-All :
      (merge : A → A) (new : A) (rows : List A) (P : K → Type ℓ)
      → ((r : A) → key (merge r) ≡ key r)
      → P (key new)
      → All (λ x. P (key x)) rows
      → All (λ x. P (key x)) (upsert merge new rows)
  unfolding upsert
  upsert-All merge new [] P h p q = (p, tt)
  upsert-All merge new (r ∷ rows) P h p (q, qs) = elim (Bool-cases (eqb (key r) (key new))) [
    | inl old ↦ rw old (rw (h r) q, qs)
    | inr other ↦ rw other (q, upsert-All merge new rows P h p qs)
  ]

  pub upsert-HasUniqueKeys :
      (merge : A → A) (new : A) (rows : List A)
      → ((r : A) → key (merge r) ≡ key r)
      → HasUniqueKeys rows
      → HasUniqueKeys (upsert merge new rows)
  unfolding upsert
  upsert-HasUniqueKeys merge new [] h u = (tt, tt)
  upsert-HasUniqueKeys merge new (r ∷ rows) h (fresh, u) =
      elim (Bool-cases (eqb (key r) (key new))) [
        | inl old ↦ rw old (rw (h r) fresh, u)
        | inr other ↦ rw other (
          upsert-All merge new rows (λ k. k ≢ key r) h
              (λ e. ground (arith, eqb_iff (key r) (key new))) fresh,
          upsert-HasUniqueKeys merge new rows h u,
        )
      ]

  pub find_row-delete :
      (j k : K) (rows : List A)
      → find_row j (delete k rows) ≡ (if eqb k j then none else find_row j rows)
  unfolding delete
  find_row-delete j k [] = ground arith
  find_row-delete j k (r ∷ rows) =
      ground (arith, find_row-delete j k rows, eqb_iff k j, eqb_iff (key r) k, eqb_iff (key r) j)

  pub delete-HasUniqueKeys :
      (k : K) (rows : List A) → HasUniqueKeys rows → HasUniqueKeys (delete k rows)
  unfolding delete
  delete-HasUniqueKeys k [] u = tt
  delete-HasUniqueKeys k (r ∷ rows) (fresh, u) = elim (Bool-cases (eqb (key r) k)) [
    | inl gone ↦ rw gone (delete-HasUniqueKeys k rows u)
    | inr left ↦
        rw left (All-keep _ (λ x. not (eqb (key x) k)) rows fresh, delete-HasUniqueKeys k rows u)
  ]

  pub find_row-key : (k : K) (rows : List A) (r : A) → find_row k rows ≡ some r → key r ≡ k
  find_row-key k [] r h = cc
  find_row-key k (x ∷ rows) r h = elim (Bool-cases (eqb (key x) k)) [
    | inl here ↦ ground (arith, eqb_iff (key x) k)
    | inr later ↦ find_row-key k rows r (rw later at h)
  ]

  find_row-insert_sorted :
      (le : A → A → Bool) (k : K) (a : A) (rows : List A)
      → All (λ x. key x ≢ key a) rows
      → find_row k (insert_sorted le a rows) ≡ (if eqb (key a) k then some a else find_row k rows)
  unfolding insert_sorted
  find_row-insert_sorted le k a [] h = refl
  find_row-insert_sorted le k a (x ∷ rows) (p, h) =
      ground (arith, find_row-insert_sorted le k a rows h, eqb_iff (key a) k, eqb_iff (key x) k, p)

  -- The row of a key is the same in any order of the rows.
  pub find_row-sort_by :
      (le : A → A → Bool) (k : K) (rows : List A)
      → HasUniqueKeys rows
      → find_row k (sort_by le rows) ≡ find_row k rows
  unfolding sort_by
  find_row-sort_by le k [] u = refl
  find_row-sort_by le k (r ∷ rows) (fresh, u) =
      find_row-insert_sorted le k r (sort_by le rows)
        (sort_by-All le (λ x. key x ≢ key r) rows fresh)
      ∙ ap (λ o. if eqb (key r) k then some r else o) (find_row-sort_by le k rows u)
