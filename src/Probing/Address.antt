-- ===== src/Probing/Address.antt =====
-- The functions of Go's package net on addresses with ports: SplitHostPort and JoinHostPort.
use sounding.Prelude.{
  ℕ, Bool, ◌||◌, not, Option, none, some, [], ◌∷◌, ◌++◌, Text, any, ◌==◌, if◌then◌else◌,
}
use sounding.Strings.{cut_at}

-- `bytealg.LastIndexByteString`: the text before and after the last separator.
unfoldable pub cut_last : ℕ → Text → Option (Text × Text)
cut_last sep [] = none
cut_last sep (c ∷ s) = elim (cut_last sep s) [
  | some (a, b) ↦ some (c ∷ a, b)
  | none ↦ if c == sep then some ([], s) else none
]

abbrev pub has_byte : ℕ → Text → Bool
has_byte c s = any (λ b. b == c) s

-- A host in brackets, past the first one: the address must be `[host]:port`.
unfoldable pub bracketed : Option (Text × Text) → Option (Text × Text)
bracketed none = none
bracketed (some (host, [])) = none
bracketed (some (host, c ∷ port)) =
    if not (c == b':')
      || has_byte b':' port
      || has_byte b'[' host
      || has_byte b'[' port
      || has_byte b']' port
    then none
    else some (host, port)

-- A host without brackets.
unfoldable pub plain : Option (Text × Text) → Option (Text × Text)
plain none = none
plain (some (host, port)) =
    if has_byte b':' host
      || has_byte b'[' host
      || has_byte b'[' port
      || has_byte b']' host
      || has_byte b']' port
    then none
    else some (host, port)

-- `net.SplitHostPort`; the errors are not told apart.
unfoldable pub split_host_port : Text → Option (Text × Text)
unfolding bracketed plain
split_host_port [] = none
split_host_port (c ∷ s) =
    if c == b'[' then bracketed (cut_at b']' s) else plain (cut_last b':' (c ∷ s))

-- `net.JoinHostPort`
unfoldable pub join_host_port : Text → Text → Text
join_host_port host port =
    if has_byte b':' host then b'[' ∷ host ++ b']' ∷ b':' ∷ port else host ++ b':' ∷ port
