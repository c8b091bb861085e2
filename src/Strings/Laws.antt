-- ===== src/Strings/Laws.antt =====
-- Cutting, splitting, joining and trimming.
use mathlib.Core.List.{reverse, reverse-append, reverse-reverse}
use sounding.Prelude.{
  ℕ, ◌≡◌, ◌≢◌, refl, sym, ap, ◌∙◌, false, some, List, [], ◌∷◌, ◌++◌, append_assoc, append-nil,
  arith, Text, All, Bool-cases, inl, inr, ◌==◌,
}
use sounding.Strings.{cut_at, split, split_from, join, is_space, trim_left, trim_space}

abbrev pub Lacks : ℕ → Text → Type 0
Lacks b = All (λ c. c ≢ b)

pub cut_at-append : (sep : ℕ) (p s : Text) → Lacks sep p → cut_at sep (p ++ sep ∷ s) ≡ some (p, s)
unfolding cut_at
cut_at-append sep [] s h = ground arith
cut_at-append sep (c ∷ p) s (q, h) = ground (arith, cut_at-append sep p s h)

split_from-append :
    (sep : ℕ) (p s cur : Text)
    → Lacks sep p
    → split_from sep cur (p ++ s) ≡ split_from sep (cur ++ p) s
unfolding split_from
split_from-append sep [] s cur h = rw append-nil
split_from-append sep (c ∷ p) s cur (q, h) =
    ground (arith, split_from-append sep p s (cur ++ c ∷ []) h, append_assoc cur (c ∷ []) p)

split_from_sep : (sep : ℕ) (s cur : Text) → split_from sep cur (sep ∷ s) ≡ cur ∷ split_from sep [] s
unfolding split_from
split_from_sep sep s cur = ground arith

-- Splitting a join gives the parts back, if there is one and none holds the separator.
split_from_parts :
    (sep : ℕ) (s t cur : Text)
    → split_from sep cur (s ++ sep ∷ t) ≡ split_from sep cur s ++ split sep t
unfolding split split_from
split_from_parts sep [] t cur = split_from_sep sep t cur
split_from_parts sep (c ∷ s) t cur = elim (Bool-cases (c == sep)) [
  | inl here ↦ rw (here, split_from) (ap (λ ps. cur ∷ ps) (split_from_parts sep s t []))
  | inr later ↦ rw (later, split_from) (split_from_parts sep s t (cur ++ c ∷ []))
]

-- A separator between two texts splits them apart.
pub split-append : (sep : ℕ) (s t : Text) → split sep (s ++ sep ∷ t) ≡ split sep s ++ split sep t
unfolding split
split-append sep s t = split_from_parts sep s t []

pub split-join :
    (sep : ℕ) (p : Text) (ps : List Text)
    → All (Lacks sep) (p ∷ ps)
    → split sep (join sep (p ∷ ps)) ≡ p ∷ ps
unfolding split join
split-join sep p [] (h, hs) =
    ap (split_from sep []) (sym (append-nil p))
    ∙ split_from-append sep p [] [] h
    ∙ unfold split_from in refl
split-join sep p (q ∷ ps) (h, hs) =
    split_from-append sep p (sep ∷ join sep (q ∷ ps)) [] h
    ∙ split_from_sep sep (join sep (q ∷ ps)) p
    ∙ ap (λ r. p ∷ r) (split-join sep q ps hs)

-- The first byte is no space, and there is one.
abbrev pub StartsBare : Text → Type 0
StartsBare [] = ⊥
StartsBare (c ∷ s) = is_space c ≡ false

-- A text that trimming leaves alone.
abbrev pub IsTrimmed : Text → Type 0
IsTrimmed s = StartsBare s × StartsBare (reverse s)

StartsBare-append : (s t : Text) → StartsBare s → StartsBare (s ++ t)
StartsBare-append [] t h = absurd h
StartsBare-append (c ∷ s) t h = h

trim_left-StartsBare : (s : Text) → StartsBare s → trim_left s ≡ s
unfolding trim_left
trim_left-StartsBare [] h = refl
trim_left-StartsBare (c ∷ s) h = rw h

pub trim_space-IsTrimmed : (s : Text) → IsTrimmed s → trim_space s ≡ s
unfolding trim_space
trim_space-IsTrimmed s (h, k) =
    rw (trim_left-StartsBare s h, trim_left-StartsBare (reverse s) k, reverse-reverse)

-- A text is trimmed if its two ends are.
pub IsTrimmed-append : (s m t : Text) → IsTrimmed s → IsTrimmed t → IsTrimmed (s ++ (m ++ t))
IsTrimmed-append s m t (h, _) (_, k) = (
  StartsBare-append s (m ++ t) h,
  rw (reverse-append, reverse-append)
      (rw append_assoc (StartsBare-append (reverse t) (reverse m ++ reverse s) k)),
)
