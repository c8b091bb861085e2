-- ===== src/Rpc/MethodNames.antt =====
-- internal/api/rpc.go: the names of methods, with and without a namespace.
use sounding.Prelude.{
  ◌≡◌, refl, Bool, true, false, Option, none, some, List, [], ◌∷◌, ◌++◌, Text, bytes, utf8, same, ℕ,
  lookup, Bool-cases, inl, inr, All, all, arith, ◌&&◌,
}
use sounding.Strings.{after_last}
use sounding.Rpc.Dispatch.{Method, KomariMethod, methods, komari_methods, listed_methods, method_of}

abbrev is_none : {A : Type 0} → Option A → Bool
is_none none = true
is_none (some a) = false

abbrev pub is_case : Option Method → Option KomariMethod → Bool
is_case (some m) k = true
is_case none (some k) = true
is_case none none = false

-- A method's name that has a case and no namespace.
abbrev pub is_known : Text → Bool
is_known name =
    is_none (after_last b':' name)
    && is_none (after_last b'.' name)
    && is_case (lookup name methods) (lookup name komari_methods)

pub listed_methods-known : all is_known listed_methods ≡ true
unfolding listed_methods after_last lookup methods komari_methods same bytes utf8
listed_methods-known = refl

pub all-All :
    {A : Type 0} (p : A → Bool) (P : A → Type 0) (f : (a : A) → p a ≡ true → P a) (xs : List A)
    → all p xs ≡ true
    → All P xs
all-All p P f [] h = tt
all-All p P f (x ∷ xs) h = elim (Bool-cases (p x)) [
  | inl e ↦ (f x e, all-All p P f xs (rw e at h))
  | inr e ↦ absurd (ground arith)
]

after_last-append :
    (sep : ℕ) (p s : Text) → after_last sep s ≡ none → after_last sep (p ++ sep ∷ s) ≡ some s
unfolding after_last
after_last-append sep [] s h = rw h (ground arith)
after_last-append sep (c ∷ p) s h = rw (after_last-append sep p s h) refl

is_none_iff : {A : Type 0} (o : Option A) → is_none o ≡ true → o ≡ none
is_none_iff none h = refl
is_none_iff (some a) h = cc

pub method_of-bare : (name : Text) → is_known name ≡ true → method_of name ≡ name
unfolding method_of
method_of-bare name h =
    rw
      (
        method_of,
        is_none_iff (after_last b':' name) (ground arith),
        is_none_iff (after_last b'.' name) (ground arith),
      )
      refl

pub method_of-namespace :
    (ns name : Text) → is_known name ≡ true → method_of (ns ++ b':' ∷ name) ≡ name
unfolding method_of
method_of-namespace ns name h =
    rw
      (
        method_of,
        after_last-append b':' ns name (is_none_iff (after_last b':' name) (ground arith)),
      )
      refl
