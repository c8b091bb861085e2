-- ===== src/Notify/Send.antt =====
-- internal/notify: what each channel sends (the methods Send of telegram.go, dingtalk.go, feishu.go,
-- email.go and webhook.go), and dingtalk_sign.go.
use sounding.Prelude.{
  ℕ, ◌/◌, ◌<◌, ◌≡◌, Bool, true, false, ◌||◌, ◌==◌, List, [], ◌∷◌, ◌++◌, Text, bytes, any, is_empty,
  if◌then◌else◌, ltb, Result, ok, err, none, some, Result-cases, Bool-cases, inl, inr, arith,
}
use sounding.Strings.{join, cut_at}
use sounding.Clock.{Time, Zone}
use sounding.Decimal.{decimal}
use sounding.Notify.{Message, Notifier}
use sounding.Notify.Telegram.{telegram_text}

-- The members of the JSON bodies that vary.
pub data Payload : Type 0 where
  webhook_body : (title body level time : Text) → Payload
  telegram_body : (chat_id text : Text) → Payload
  ding_talk_body : (title text : Text) → Payload
  feishu_body : (title text : Text) → Payload

pub data Outgoing : Type 0 where
  post : (url : Text) → Payload → Outgoing
  mail : (host auth_host username password from : Text) (to : List Text) (body : Text) → Outgoing

-- The network: an error, or the status of the answer. SMTP answers by an error or none, here by 200.
-- `sign` is the escaped base64 text of HMAC-SHA256 under a secret.
pub record Network : Type 0 where
  pub sign : Text → Text → Text
  pub exchange : Outgoing → Result ℕ

-- `signDingTalk`; the time stamp is in milliseconds.
unfoldable pub sign_ding_talk : Network → Time → Text → Text → Text
unfolding decimal
sign_ding_talk net now hook secret =
    let ts = decimal (now / 1_000_000) in
    hook
    ++ (if any (λ c. c == b'?') hook then b'&' else b'?')
      ∷ (bytes "timestamp=" ++ ts ++ bytes "&sign=" ++ net.sign secret (ts ++ 10 ∷ secret))

crlf : Text
crlf = 13 ∷ 10 ∷ []

unfoldable pub mail_text : Text → List Text → Message → Text
unfolding crlf
mail_text from to msg =
    bytes "From: "
    ++ from
    ++ crlf
    ++ bytes "To: "
    ++ join b',' to
    ++ crlf
    ++ bytes "Subject: "
    ++ msg.title
    ++ crlf
    ++ bytes "MIME-Version: 1.0"
    ++ crlf
    ++ bytes "Content-Type: text/plain; charset=UTF-8"
    ++ crlf
    ++ crlf
    ++ msg.body

-- `strings.Split(host, ":")[0]`
unfoldable pub host_name : Text → Text
host_name host = elim (cut_at b':' host) [ none ↦ host | some (name, port) ↦ name ]

no_recipients : List Text → Bool
no_recipients [] = true
no_recipients (t ∷ ts) = false

-- What a channel sends for a message, or what its settings lack.
unfoldable pub compose : Network → Zone → Time → Notifier → Message → Result Outgoing
unfolding sign_ding_talk mail_text host_name no_recipients telegram_text
compose net z now (Notifier.webhook url) msg =
    ok (post url (webhook_body msg.title msg.body msg.level (z.format_time now)))
compose net z now (Notifier.telegram bot_token chat_id) msg =
    if is_empty bot_token || is_empty chat_id
    then err (bytes "telegram: 缺少 bot token 或 chat id")
    else ok (
        post (bytes "https://api.telegram.org/bot" ++ bot_token ++ bytes "/sendMessage")
          (telegram_body chat_id (telegram_text msg)))
compose net z now (Notifier.ding_talk hook secret) msg = ok (
    post (if is_empty secret then hook else sign_ding_talk net now hook secret)
      (ding_talk_body msg.title (bytes "### " ++ msg.title ++ 10 ∷ 10 ∷ msg.body)))
compose net z now (Notifier.feishu hook) msg = ok (post hook (feishu_body msg.title msg.body))
compose net z now (Notifier.email host username password from to) msg =
    if is_empty host || is_empty from || no_recipients to
    then err (bytes "email: 配置不完整")
    else ok (mail host (host_name host) username password from to (mail_text from to msg))

-- `Name`
unfoldable pub channel_name : Notifier → Text
channel_name (Notifier.webhook url) = bytes "webhook"
channel_name (Notifier.telegram bot_token chat_id) = bytes "telegram"
channel_name (Notifier.ding_talk hook secret) = bytes "dingtalk"
channel_name (Notifier.feishu hook) = bytes "feishu"
channel_name (Notifier.email host username password from to) = bytes "email"

-- A status from 300 is an error.
unfoldable pub accept : Text → Result ℕ → Result (Unit {0})
accept name (err e) = err e
accept name (ok status) =
    if ltb status 300 then ok tt else err (name ++ bytes ": http " ++ decimal status)

unfoldable pub exchanged : Network → Text → Result Outgoing → Result (Unit {0})
unfolding accept
exchanged net name (err e) = err e
exchanged net name (ok out) = accept name (net.exchange out)

-- `Send`
unfoldable pub send : Network → Zone → Time → Notifier → Message → Result (Unit {0})
unfolding compose exchanged channel_name
send net z now n msg = exchanged net (channel_name n) (compose net z now n msg)

-- A message counts as sent only if the channel's settings are complete and the other side answered
-- what the channel sends with a status below 300.
pub send-accepted :
    (net : Network) (z : Zone) (now : Time) (n : Notifier) (msg : Message)
    → send net z now n msg ≡ ok tt
    → (out : Outgoing) × (status : ℕ) × (compose net z now n msg ≡ ok out)
      × (net.exchange out ≡ ok status)
      × (status < 300)
unfolding send exchanged accept
send-accepted net z now n msg h = elim (Result-cases (compose net z now n msg)) [
  | inr (e, lacking) ↦ cc (rw lacking at h)
  | inl (out, composed) ↦ elim (Result-cases (net.exchange out)) [
    | inr (e, failed) ↦ cc (rw (composed, failed) at h)
    | inl (status, answered) ↦ elim (Bool-cases (ltb status 300)) [
      | inr refused ↦ cc (rw (composed, answered, refused) at h)
      | inl low ↦ (out, status, composed, answered, ground arith)
    ]
  ]
]
