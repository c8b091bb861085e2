-- ===== src/Notify/Tests.antt =====
-- Examples of the theorems on the messages.
use sounding.Prelude.{◌≡◌, refl, ok, Text, bytes, utf8, All, arith}
use sounding.Notify.{Message, Notifier}
use sounding.Notify.Send.{Network, send}
use sounding.Samples.{zone}
use sounding.Notify.Telegram.{escape_markdown}
use sounding.Notify.TelegramLaws.{
  shown, IsEscaped, IsPlainByte, IsPartOfRune, shown-escape_markdown,
}

abbrev plain : Text
plain = bytes "n1. (up)"

plain-IsPlainByte : All IsPlainByte plain
unfolding bytes utf8
plain-IsPlainByte = omega arith

shown-escape_markdown_example :
    (shown (escape_markdown plain) ≡ plain) × IsEscaped (escape_markdown plain)
shown-escape_markdown_example = shown-escape_markdown plain plain-IsPlainByte

abbrev word : Text
word = bytes "告警"

word-IsPartOfRune : All IsPartOfRune word
unfolding bytes utf8
word-IsPartOfRune = omega arith

-- A network that accepts everything.
abbrev network : Network
network = record { sign = λ secret s. secret; exchange = λ out. ok 200 }

abbrev message : Message
message = record { title = plain; body = plain; level = bytes "warning" }

abbrev channel : Notifier
channel = Notifier.telegram (bytes "token") (bytes "chat")

accepted : send network zone 0 channel message ≡ ok tt
unfolding send bytes utf8
accepted = refl
