-- ===== src/Notify/TelegramLaws.antt =====
-- Which texts the escaping keeps.
use sounding.Prelude.{
  ℕ, ◌+◌, ◌*◌, ◌<◌, ◌≤◌, ◌≡◌, ◌≢◌, refl, ap, ◌∙◌, false, ◌==◌, [], ◌∷◌, ◌++◌, Text, bytes, utf8,
  All, any, ◌⊎◌, length, if◌then◌else◌, arith, Bool-cases, inl, inr,
}
use sounding.Notify.Telegram.{is_reserved, backslash, escape_byte, escape_markdown}

-- What Telegram shows of an escaped text: a backslash stands for the character after it.
abbrev pub shown : Text → Text
shown [] = []
shown (b ∷ []) = b ∷ []
shown (b ∷ c ∷ s) = if b == backslash then c ∷ shown s else b ∷ shown (c ∷ s)

-- A byte that is a character of its own, and no backslash.
abbrev pub IsPlainByte : ℕ → Type 0
IsPlainByte b = (b < 128) × (b ≢ backslash)

-- A byte of a character with several.
abbrev pub IsPartOfRune : ℕ → Type 0
IsPartOfRune b = (128 ≤ b) × (b < 256)

shown_plain : (b : ℕ) (s : Text) → b ≢ backslash → shown (b ∷ s) ≡ b ∷ shown s
shown_plain b [] h = refl
shown_plain b (c ∷ s) h = ground arith

shown-escape_byte : (b : ℕ) (s : Text) → IsPlainByte b → shown (escape_byte b ++ s) ≡ b ∷ shown s
unfolding escape_byte utf8
shown-escape_byte b s (small, plain) = elim (Bool-cases (is_reserved b)) [
  | inl reserved ↦ rw reserved refl
  | inr other ↦ rw other (ground (arith, shown_plain b s plain))
]

utf8_small : (b : ℕ) → b < 128 → utf8 b ≡ b ∷ []
unfolding utf8
utf8_small b h = ground arith

escape_markdown_lem : (s : Text) → All IsPlainByte s → shown (escape_markdown s) ≡ s
unfolding escape_markdown
escape_markdown_lem [] h = refl
escape_markdown_lem (b ∷ s) (p, h) =
    shown-escape_byte b (escape_markdown s) p ∙ ap (λ x. b ∷ x) (escape_markdown_lem s h)

-- The characters that Telegram wants escaped in MarkdownV2, by its documentation.
abbrev pub special : Text
special = bytes "_*[]()~`>#+-=|{}.!"

-- Read from the left, a backslash with what follows it stands for one character, and any other character is none
-- of the special ones.
abbrev pub IsEscaped : Text → Type 0
IsEscaped [] = Unit
IsEscaped (b ∷ []) = (b ≢ backslash) × (any (λ c. c == b) special ≡ false)
IsEscaped (b ∷ c ∷ s) =
    ((b ≡ backslash) × IsEscaped s)
    ⊎ ((b ≢ backslash) × (any (λ x. x == b) special ≡ false) × IsEscaped (c ∷ s))

IsEscaped-plain :
    (b : ℕ) (s : Text)
    → b ≢ backslash
    → any (λ c. c == b) special ≡ false
    → IsEscaped s
    → IsEscaped (b ∷ s)
IsEscaped-plain b [] plain usual h = (plain, usual)
IsEscaped-plain b (c ∷ s) plain usual h = inr (plain, usual, h)

escape_byte-IsEscaped :
    (b : ℕ) (s : Text) → IsPlainByte b → IsEscaped s → IsEscaped (escape_byte b ++ s)
unfolding escape_byte is_reserved utf8
escape_byte-IsEscaped b s (small, plain) h = elim (Bool-cases (is_reserved b)) [
  | inl reserved ↦ rw (escape_byte, reserved) (inl (refl, h))
  | inr usual ↦ rw (escape_byte, usual, utf8_small b small) (IsEscaped-plain b s plain usual h)
]

escape_markdown-IsEscaped : (s : Text) → All IsPlainByte s → IsEscaped (escape_markdown s)
unfolding escape_markdown
escape_markdown-IsEscaped [] h = tt
escape_markdown-IsEscaped (b ∷ s) (p, h) =
    escape_byte-IsEscaped b (escape_markdown s) p (escape_markdown-IsEscaped s h)

-- A text of ASCII characters without a backslash is shown as it was written, and of the characters that
-- MarkdownV2 reserves each one stands behind a backslash.
pub shown-escape_markdown :
    (s : Text) → All IsPlainByte s → (shown (escape_markdown s) ≡ s) × IsEscaped (escape_markdown s)
shown-escape_markdown s h = (escape_markdown_lem s h, escape_markdown-IsEscaped s h)

rune_unreserved : (b : ℕ) → 128 ≤ b → is_reserved b ≡ false
unfolding is_reserved bytes utf8
rune_unreserved b h = ground arith

escape_byte-length :
    (b : ℕ) (s : Text) → IsPartOfRune b → length (escape_byte b ++ s) ≡ 2 + length s
unfolding escape_byte utf8
escape_byte-length b s (low, high) = rw (rune_unreserved b low) (ground arith)

-- A text of bytes from 128, as the characters outside of ASCII have them, is not kept: each of its
-- bytes becomes two.
pub length-escape_markdown :
    (s : Text) → All IsPartOfRune s → length (escape_markdown s) ≡ 2 * length s
unfolding escape_markdown
length-escape_markdown [] h = refl
length-escape_markdown (b ∷ s) (p, h) =
    escape_byte-length b (escape_markdown s) p ∙ omega (arith, length-escape_markdown s h)
