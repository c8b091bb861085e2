-- ===== src/Agent/Parsed.antt =====
-- What `parseProbes` returns for any text.
use sounding.Prelude.{
  ◌≡◌, ◌≢◌, Bool, true, false, Option, none, some, List, [], ◌∷◌, Text, any, same, is_empty, All,
  All-map, arith, same_iff, Bool-cases, Option-cases, inl, inr,
}
use sounding.Strings.{split, trim_space}
use sounding.Contract.{ProbeTarget}
use sounding.Agent.Probes.{
  named_target, segments, parse_part, take_target, keep_target, probe_key, parse_parts,
  parse_probes,
}

-- A target to be reported has a name and a host.
abbrev pub IsNamed : ProbeTarget → Type 0
IsNamed p = (is_empty p.name ≡ false) × (is_empty p.host ≡ false)

-- No two targets have the same name and host.
abbrev pub HasDistinctTargets : List ProbeTarget → Type 0
HasDistinctTargets [] = Unit
HasDistinctTargets (p ∷ ps) = All (λ q. probe_key q ≢ probe_key p) ps × HasDistinctTargets ps

named_target-IsNamed :
    (o : Option ProbeTarget) (p : ProbeTarget) → named_target o ≡ some p → IsNamed p
unfolding named_target
named_target-IsNamed none p h = cc
named_target-IsNamed (some q) p h = ground arith

parse_part-IsNamed : (part : Text) (p : ProbeTarget) → parse_part part ≡ some p → IsNamed p
unfolding parse_part
parse_part-IsNamed part p h = elim (Bool-cases (is_empty (trim_space part))) [
  | inl blank ↦ cc (rw blank at h)
  | inr filled ↦ named_target-IsNamed (segments (trim_space part)) p (rw filled at h)
]

abbrev IsUnseen : List Text → ProbeTarget → Type 0
IsUnseen seen q = any (same (probe_key q)) seen ≡ false

-- What the targets of one round have, if those of the later rounds have it.
module _ (rest : List Text → List ProbeTarget) (seen : List Text) where
  keep_target-IsNamed :
      (b : Bool) (p : ProbeTarget)
      → IsNamed p
      → ((seen' : List Text) → All IsNamed (rest seen'))
      → All IsNamed (keep_target b p seen rest)
  unfolding keep_target
  keep_target-IsNamed true p named h = h seen
  keep_target-IsNamed false p named h = (named, h (probe_key p ∷ seen))

  take_target-IsNamed :
      (part : Text)
      → ((seen' : List Text) → All IsNamed (rest seen'))
      → All IsNamed (take_target (parse_part part) seen rest)
  take_target-IsNamed part h = elim (Option-cases (parse_part part)) [
    | inl skipped ↦ rw skipped (unfold take_target in h seen)
    | inr (p, parsed) ↦
        rw parsed
          (unfold take_target in keep_target-IsNamed _ p (parse_part-IsNamed part p parsed) h)
  ]

  take_target-IsUnseen :
      (o : Option ProbeTarget)
      → ((seen' : List Text) → All (IsUnseen seen') (rest seen'))
      → All (IsUnseen seen) (take_target o seen rest)
  unfolding take_target
  take_target-IsUnseen none h = h seen
  take_target-IsUnseen (some p) h = elim (Bool-cases (any (same (probe_key p)) seen)) [
    | inl again ↦ rw (again, take_target) (h seen)
    | inr first ↦
        rw (first, take_target)
          (first, All-map _ (IsUnseen seen) (λ q u. ground arith) _ (h (probe_key p ∷ seen)))
  ]

  take_target-HasDistinctTargets :
      (o : Option ProbeTarget)
      → ((seen' : List Text) → HasDistinctTargets (rest seen'))
      → ((seen' : List Text) → All (IsUnseen seen') (rest seen'))
      → HasDistinctTargets (take_target o seen rest)
  unfolding take_target
  take_target-HasDistinctTargets none h u = h seen
  take_target-HasDistinctTargets (some p) h u = elim (Bool-cases (any (same (probe_key p)) seen)) [
    | inl again ↦ rw (again, take_target) (h seen)
    | inr first ↦
        rw (first, take_target)
          (
            All-map _ (λ q. probe_key q ≢ probe_key p)
                (λ q v. ground (arith, same_iff (probe_key q) (probe_key p))) _
                (u (probe_key p ∷ seen)),
            h (probe_key p ∷ seen),
          )
  ]

parse_parts-IsNamed : (parts seen : List Text) → All IsNamed (parse_parts seen parts)
unfolding parse_parts
parse_parts-IsNamed [] seen = tt
parse_parts-IsNamed (part ∷ parts) seen =
    take_target-IsNamed (λ s. parse_parts s parts) seen part (parse_parts-IsNamed parts)

parse_parts-IsUnseen : (parts seen : List Text) → All (IsUnseen seen) (parse_parts seen parts)
unfolding parse_parts
parse_parts-IsUnseen [] seen = tt
parse_parts-IsUnseen (part ∷ parts) seen =
    take_target-IsUnseen (λ s. parse_parts s parts) seen (parse_part part)
      (parse_parts-IsUnseen parts)

parse_parts-HasDistinctTargets :
    (parts seen : List Text) → HasDistinctTargets (parse_parts seen parts)
unfolding parse_parts
parse_parts-HasDistinctTargets [] seen = tt
parse_parts-HasDistinctTargets (part ∷ parts) seen =
    take_target-HasDistinctTargets (λ s. parse_parts s parts) seen (parse_part part)
      (parse_parts-HasDistinctTargets parts) (parse_parts-IsUnseen parts)

-- Whatever the text, each target that is read has a name and a host, and no two have the same.
pub parse_probes-IsNamed :
    (s : Text) → All IsNamed (parse_probes s) × HasDistinctTargets (parse_probes s)
unfolding parse_probes
parse_probes-IsNamed s = elim (Bool-cases (is_empty s)) [
  | inl empty ↦ rw empty (tt, tt)
  | inr filled ↦
      rw filled
        (parse_parts-IsNamed (split b',' s) [], parse_parts-HasDistinctTargets (split b',' s) [])
]
