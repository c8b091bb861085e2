-- ===== src/Notify/Telegram.antt =====
-- internal/notify/telegram.go: the text of a message.
use sounding.Prelude.{ℕ, Bool, ◌==◌, [], ◌∷◌, ◌++◌, Text, bytes, utf8, any, if◌then◌else◌}
use sounding.Notify.{Message}

-- The characters of `replacer`.
unfoldable pub is_reserved : ℕ → Bool
is_reserved b = any (λ c. c == b) (bytes "_*[]()~`>#+-=|{}.!")

abbrev pub backslash : ℕ
backslash = 92

-- One round of the loop over the bytes: `string(s[i])` is the text of the rune with the byte's number.
unfoldable pub escape_byte : ℕ → Text
unfolding is_reserved
escape_byte b = if is_reserved b then backslash ∷ b ∷ [] else utf8 b

unfoldable pub escape_markdown : Text → Text
unfolding escape_byte
escape_markdown [] = []
escape_markdown (b ∷ s) = escape_byte b ++ escape_markdown s

unfoldable pub telegram_text : Message → Text
unfolding escape_markdown
telegram_text msg = b'*' ∷ (escape_markdown msg.title ++ b'*' ∷ 10 ∷ escape_markdown msg.body)
