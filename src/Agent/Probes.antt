-- ===== src/Agent/Probes.antt =====
-- cmd/agent/main.go: the text "name[:type]:host, …" of probes, as the agent writes it from the server's
-- tasks and reads it back.
use sounding.Prelude.{
  Bool, true, false, ◌||◌, Option, none, some, List, [], ◌∷◌, ◌++◌, Text, any, bytes, same,
  is_empty, if◌then◌else◌,
}
use sounding.Strings.{cut_at, split, join, trim_space, to_lower}
use sounding.Contract.{ProbeTarget}

-- A task of the answer of /agent/config.
pub record RemoteTask : Type 0 where
  pub name : Text
  pub target : Text
  pub type : Text

abbrev pub target_of : Text → Text → Text → ProbeTarget
target_of name host typ = record { name = name; host = host; type = typ }

abbrev pub known_types : List Text
known_types =
    bytes "icmp" ∷ bytes "ping" ∷ bytes "tcp" ∷ bytes "http" ∷ bytes "https" ∷ bytes "dns" ∷ []

-- `probeTypes[t]`
unfoldable pub is_probe_type : Text → Bool
is_probe_type t = any (same t) known_types

-- The text of one task; a task with no name or no target gives none.
unfoldable pub remote_part : RemoteTask → Option Text
remote_part t =
    if is_empty t.name || is_empty t.target
    then none
    else some (
        if is_empty t.type
        then t.name ++ b':' ∷ t.target
        else t.name ++ b':' ∷ (t.type ++ b':' ∷ t.target))

unfoldable pub remote_parts : List RemoteTask → List Text
unfolding remote_part
remote_parts [] = []
remote_parts (t ∷ ts) = elim (remote_part t) [
  | none ↦ remote_parts ts
  | some p ↦ p ∷ remote_parts ts
]

-- What `fetchRemoteProbes` makes of an answer that decodes.
unfoldable pub remote_probes : List RemoteTask → Text
unfolding remote_parts
remote_probes ts = join b',' (remote_parts ts)

-- Two segments, or three whose middle one is no type: the host is all behind the first colon.
untyped_target : Text → Text → ProbeTarget
untyped_target name host = target_of (trim_space name) (trim_space host) []

-- `strings.SplitN(part, ":", 3)`, by cutting twice.
unfoldable pub segments : Text → Option ProbeTarget
unfolding untyped_target is_probe_type
segments part = elim (cut_at b':' part) [
  | none ↦ none
  | some (name, rest) ↦ elim (cut_at b':' rest) [
    | none ↦ some (untyped_target name rest)
    | some (typ, host) ↦
        if is_probe_type (to_lower (trim_space typ))
        then some (target_of (trim_space name) (trim_space host) (to_lower (trim_space typ)))
        else some (untyped_target name (join b':' (typ ∷ host ∷ [])))
  ]
]

-- A target with no name or no host is passed over.
unfoldable pub named_target : Option ProbeTarget → Option ProbeTarget
named_target none = none
named_target (some p) = if is_empty p.name || is_empty p.host then none else some p

unfoldable pub parse_part : Text → Option ProbeTarget
unfolding segments named_target
parse_part part =
    if is_empty (trim_space part) then none else named_target (segments (trim_space part))

unfoldable pub probe_key : ProbeTarget → Text
probe_key p = p.name ++ b'|' ∷ p.host

-- A target is passed over if its key was seen; `rest` is the remaining loop, over the keys seen.
unfoldable pub keep_target :
    Bool → ProbeTarget → List Text → (List Text → List ProbeTarget) → List ProbeTarget
unfolding probe_key
keep_target true p seen rest = rest seen
keep_target false p seen rest = p ∷ rest (probe_key p ∷ seen)

-- One round of the loop of `parseProbes`.
unfoldable pub take_target :
    Option ProbeTarget → List Text → (List Text → List ProbeTarget) → List ProbeTarget
unfolding keep_target
take_target none seen rest = rest seen
take_target (some p) seen rest = keep_target (any (same (probe_key p)) seen) p seen rest

unfoldable pub parse_parts : List Text → List Text → List ProbeTarget
unfolding take_target parse_part probe_key
parse_parts seen [] = []
parse_parts seen (part ∷ parts) =
    take_target (parse_part part) seen (λ seen'. parse_parts seen' parts)

unfoldable pub parse_probes : Text → List ProbeTarget
unfolding parse_parts
parse_probes s = if is_empty s then [] else parse_parts [] (split b',' s)
