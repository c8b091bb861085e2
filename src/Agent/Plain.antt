-- ===== src/Agent/Plain.antt =====
-- cmd/agent/main.go: one task in the text of fetchRemoteProbes, as parseProbes reads it.
use sounding.Prelude.{
  ℕ, ◌≡◌, refl, Bool, true, false, not, ◌&&◌, ◌==◌, all, some, List, [], ◌∷◌, ◌++◌, Text, any,
  bytes, same, is_empty, All, All-append, All-map, arith, same_iff, Bool-cases, inl, inr,
  append_assoc,
}
use sounding.Strings.{trim_space, to_lower}
use sounding.Strings.Laws.{Lacks, IsTrimmed, trim_space-IsTrimmed, IsTrimmed-append, cut_at-append}
use sounding.Contract.{ProbeTarget}
use sounding.Agent.Probes.{
  RemoteTask, target_of, known_types, is_probe_type, remote_part, named_target, segments,
  parse_part,
}

-- A task that the text can carry.
pub record IsPlain (t : RemoteTask) : Type 0 where
  pub trimmed_name : IsTrimmed t.name
  pub trimmed_target : IsTrimmed t.target
  pub one_part : Lacks b',' t.name × Lacks b',' t.target
  pub no_colon : Lacks b':' t.name
  pub typed : is_probe_type t.type ≡ true

abbrev pub task_target : RemoteTask → ProbeTarget
task_target t = target_of t.name t.target t.type

-- What the parser needs of a type.
record IsWord (t : Text) : Type 0 where
  filled : is_empty t ≡ false
  trimmed : trim_space t ≡ t
  lowered : to_lower t ≡ t
  no_colon : Lacks b':' t
  no_comma : Lacks b',' t

unfoldable pub lacks : ℕ → Text → Bool
lacks b = all (λ c. not (c == b))

pub lacks-Lacks : (b : ℕ) (t : Text) → lacks b t ≡ true → Lacks b t
unfolding lacks
lacks-Lacks b [] h = tt
lacks-Lacks b (c ∷ t) h = ground (arith, lacks-Lacks b t)

is_word : Text → Bool
unfolding lacks
is_word t =
    not (is_empty t) && same (trim_space t) t && same (to_lower t) t && lacks b':' t && lacks b',' t

is_word-IsWord : (t : Text) → is_word t ≡ true → IsWord t
unfolding is_word
is_word-IsWord t h = record {
  filled = ground arith;
  trimmed = (same_iff (trim_space t) t).0 (ground arith);
  lowered = (same_iff (to_lower t) t).0 (ground arith);
  no_colon = lacks-Lacks b':' t (ground arith);
  no_comma = lacks-Lacks b',' t (ground arith);
}

known-IsWord : All IsWord known_types
unfolding is_word bytes same trim_space to_lower
known-IsWord =
    All-map (λ t. is_word t ≡ true) IsWord is_word-IsWord known_types
      (refl, (refl, (refl, (refl, (refl, (refl, tt))))))

any-known :
    (P : Text → Type 0) (s : Text) (ts : List Text) → All P ts → any (same s) ts ≡ true → P s
any-known P s [] h e = cc
any-known P s (t ∷ ts) (p, h) e = elim (Bool-cases (same s t)) [
  | inl equal ↦ rw ((same_iff s t).0 equal) p
  | inr other ↦ any-known P s ts h (rw other at e)
]

typed-IsWord : (t : Text) → is_probe_type t ≡ true → IsWord t
unfolding is_probe_type
typed-IsWord t h = any-known IsWord t known_types known-IsWord h

pub trimmed-filled : (s : Text) → IsTrimmed s → is_empty s ≡ false
trimmed-filled [] (h, _) = absurd h
trimmed-filled (c ∷ s) h = refl

abbrev pub part_of : RemoteTask → Text
part_of t = t.name ++ b':' ∷ (t.type ++ b':' ∷ t.target)

module _ (t : RemoteTask) (h : IsPlain t) where
  abbrev word : IsWord t.type
  word = typed-IsWord t.type h.typed

  abbrev part : Text
  part = part_of t

  pub remote_part-IsPlain : remote_part t ≡ some part
  unfolding remote_part
  remote_part-IsPlain =
      rw (
        trimmed-filled t.name h.trimmed_name,
        trimmed-filled t.target h.trimmed_target,
        word.filled,
      )

  pub part-IsTrimmed : IsTrimmed part
  part-IsTrimmed =
      let ends =
        IsTrimmed-append t.name (b':' ∷ (t.type ++ b':' ∷ [])) t.target h.trimmed_name
          h.trimmed_target in
      rw (append_assoc t.type (b':' ∷ []) t.target) at ends

  pub part-Lacks : Lacks b',' part
  part-Lacks =
      All-append _ t.name (b':' ∷ (t.type ++ b':' ∷ t.target)) h.one_part.0 (
        omega arith,
        All-append _ t.type (b':' ∷ t.target) word.no_comma (omega arith, h.one_part.1),
      )

  segments-part : segments part ≡ some (task_target t)
  unfolding segments
  segments-part = rw (
    cut_at-append b':' t.name (t.type ++ b':' ∷ t.target) h.no_colon,
    segments,
    cut_at-append b':' t.type t.target word.no_colon,
    word.trimmed,
    word.lowered,
    h.typed,
    trim_space-IsTrimmed t.name h.trimmed_name,
    trim_space-IsTrimmed t.target h.trimmed_target,
  )

  pub parse_part-part : parse_part part ≡ some (task_target t)
  unfolding parse_part named_target
  parse_part-part = rw (
    trim_space-IsTrimmed part part-IsTrimmed,
    trimmed-filled part part-IsTrimmed,
    segments-part,
    trimmed-filled t.name h.trimmed_name,
    trimmed-filled t.target h.trimmed_target,
  )
