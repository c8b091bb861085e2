-- ===== src/Notify.antt =====
-- internal/notify: the channels that an alert is delivered to, and what each of them sends.
use sounding.Prelude.{Text, List}
pub mod Telegram
pub mod TelegramLaws
pub mod Send
mod Tests

pub record Message : Type 0 where
  pub title : Text
  pub body : Text
  pub level : Text

-- The five implementations of `Notifier`, with their exported fields.
pub data Notifier : Type 0 where
  webhook : Text → Notifier
  telegram : (bot_token chat_id : Text) → Notifier
  ding_talk : (hook secret : Text) → Notifier
  feishu : Text → Notifier
  email : (host username password from : Text) (to : List Text) → Notifier
