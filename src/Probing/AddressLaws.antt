-- ===== src/Probing/AddressLaws.antt =====
-- internal/probe, types.go and icmp.go: the port that is added to a target without one.
use sounding.Prelude.{
  ℕ, ◌≡◌, refl, true, false, Bool-cases, Option-cases, inl, inr, Option, none, some, [], ◌∷◌, ◌++◌,
  Text, ◌==◌, arith,
}
use sounding.Strings.Laws.{Lacks, cut_at-append}
use sounding.Probing.Address.{cut_last, has_byte, split_host_port, join_host_port, bracketed, plain}
use sounding.Probing.{with_port}

cut_last-none : (sep : ℕ) (s : Text) → has_byte sep s ≡ false → cut_last sep s ≡ none
unfolding cut_last
cut_last-none sep [] h = refl
cut_last-none sep (c ∷ s) h = rw (cut_last, cut_last-none sep s (ground arith)) (ground arith)

cut_last-append :
    (sep : ℕ) (p s : Text) → has_byte sep s ≡ false → cut_last sep (p ++ sep ∷ s) ≡ some (p, s)
unfolding cut_last
cut_last-append sep [] s h = rw (cut_last, cut_last-none sep s h) (ground arith)
cut_last-append sep (c ∷ p) s h = rw (cut_last, cut_last-append sep p s h) refl

lacks : (c : ℕ) (s : Text) → has_byte c s ≡ false → Lacks c s
lacks c [] h = tt
lacks c (b ∷ s) h = (ground arith, lacks c s (ground arith))

-- A text without brackets and colons, as a port is.
abbrev pub IsPort : Text → Type 0
IsPort s = (has_byte b':' s ≡ false) × (has_byte b'[' s ≡ false) × (has_byte b']' s ≡ false)

-- A text without brackets.
abbrev pub IsHost : Text → Type 0
IsHost s = (has_byte b'[' s ≡ false) × (has_byte b']' s ≡ false)

bracketed_host :
    (host port : Text)
    → IsHost host
    → IsPort port
    → has_byte b':' host ≡ true
    → split_host_port (join_host_port host port) ≡ some (host, port)
unfolding split_host_port join_host_port bracketed
bracketed_host host port h p colon =
    rw (colon, cut_at-append b']' host (b':' ∷ port) (lacks b']' host h.1), p.0, h.0, p.1, p.2) refl

plain_host :
    (host port : Text)
    → IsHost host
    → IsPort port
    → has_byte b':' host ≡ false
    → split_host_port (join_host_port host port) ≡ some (host, port)
unfolding split_host_port join_host_port plain
plain_host [] port h p bare = rw (cut_last-append b':' [] port p.0) (ground arith)
plain_host (c ∷ host) port h p bare =
    let first : (c == b'[') ≡ false = ground arith in
    rw (bare, first, cut_last-append b':' (c ∷ host) port p.0, h.0, h.1, p.1, p.2) (rw bare refl)

pub split_host_port-join_host_port :
    (host port : Text)
    → IsHost host
    → IsPort port
    → split_host_port (join_host_port host port) ≡ some (host, port)
split_host_port-join_host_port host port h p = elim (Bool-cases (has_byte b':' host)) [
  | inl colon ↦ bracketed_host host port h p colon
  | inr bare ↦ plain_host host port h p bare
]

-- The parts of an address, or else the host and the port that are given.
abbrev pub or_parts : Option (Text × Text) → Text × Text → Text × Text
or_parts none d = d
or_parts (some a) d = a

-- The address that is dialled always has a port: the target's own, or else the default port at the host, IPv6 addresses included, if
-- the host has no brackets and the port neither brackets nor a colon.
pub with_port-split :
    (target host port : Text)
    → IsHost host
    → IsPort port
    → split_host_port (with_port target host port)
      ≡ some (or_parts (split_host_port target) (host, port))
unfolding with_port
with_port-split target host port h p = elim (Option-cases (split_host_port target)) [
  | inl bare ↦ rw (with_port, bare) (split_host_port-join_host_port host port h p)
  | inr (a, has) ↦ rw (with_port, has) has
]
