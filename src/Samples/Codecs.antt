-- ===== src/Samples/Codecs.antt =====
-- A zone that writes a time as one number, and encodings of lists, texts and claims that read back.
use sounding.Prelude.{
  ℕ, suc, ◌+◌, ◌-◌, ◌*◌, ◌/◌, ◌≡◌, refl, Option, none, some, List, [], ◌∷◌, Text, arith, ◌==◌,
  if◌then◌else◌, bytes, ltb, ap, ◌++◌, map,
}
use mathlib.Core.List.{cons-ne-nil}
use sounding.Strings.Laws.{Lacks}
use sounding.Auth.{Claims, Crypto}
use sounding.Auth.Laws.{CryptoLaws}
use sounding.Clock.{Time, Zone, second}
use sounding.Json.{Json, Value}
use sounding.Server.Agreement.{JsonLaws}

abbrev read_time : Text → Option Time
read_time [] = none
read_time (c ∷ s) = some (c * second)

abbrev pub zone : Zone
zone = record {
  parse_time = read_time;
  format_time = λ t. t / second ∷ [];
  format_before = λ d. [];
  offset = 0;
}

abbrev push : ℕ → List Text → List Text
push c [] = (c ∷ []) ∷ []
push c (w ∷ ws) = (c ∷ w) ∷ ws

-- Each byte is written plus two, and 1 ends a text.
abbrev write_word : Text → Text → Text
write_word [] s = 1 ∷ s
write_word (c ∷ w) s = suc (suc c) ∷ write_word w s

abbrev write_words : List Text → Text
write_words [] = []
write_words (w ∷ ws) = write_word w (write_words ws)

abbrev read_byte : ℕ → List Text → List Text
read_byte c ws = if c == 1 then [] ∷ ws else push (c - 2) ws

abbrev read_words : Text → List Text
read_words [] = []
read_words (c ∷ s) = read_byte c (read_words s)

abbrev read_list : Text → Option (List Text)
read_list [] = none
read_list (c ∷ s) = some (read_words s)

read_words-write_word : (w s : Text) → read_words (write_word w s) ≡ w ∷ read_words s
read_words-write_word [] s = refl
read_words-write_word (c ∷ w) s = ground (arith, read_words-write_word w s)

read_words-write_words : (ws : List Text) → read_words (write_words ws) ≡ ws
read_words-write_words [] = refl
read_words-write_words (w ∷ ws) =
    rw (read_words-write_word w (write_words ws), read_words-write_words ws)

abbrev read_object : Text → Option (List (Text × Value))
read_object s = some ((bytes "arch", Value.text (bytes "arm64")) ∷ [])

abbrev pub json : Json
json = record {
  object = read_object;
  decode_list = read_list;
  encode_list = λ ws. 0 ∷ write_words ws;
}

pub json-JsonLaws : JsonLaws json
json-JsonLaws = record {
  decode_encode = λ ws. rw (read_words-write_words ws);
  encode-ne-nil = λ ws. cons-ne-nil 0 (write_words ws);
}

-- An encoding that steps over the dot.
abbrev step_over : ℕ → ℕ
step_over n = if ltb n 46 then n else n + 1

abbrev step_back : ℕ → ℕ
step_back n = if ltb n 46 then n else n - 1

abbrev write_claims : Claims → Text
write_claims k = k.exp ∷ k.iat ∷ k.sub

abbrev read_claims : Text → Option Claims
read_claims (e ∷ i ∷ s) = some (record { sub = s; exp = e; iat = i })
read_claims s = none

abbrev pub crypto : Crypto
crypto = record {
  encode_base64 = map step_over;
  decode_base64 = λ s. some (map step_back s);
  mac = λ secret s. secret ++ s;
  encode_claims = write_claims;
  decode_claims = read_claims;
}

step_over-Lacks : (s : Text) → Lacks 46 (map step_over s)
step_over-Lacks [] = tt
step_over-Lacks (n ∷ s) = (ground arith, step_over-Lacks s)

step_back-step_over : (s : Text) → map step_back (map step_over s) ≡ s
step_back-step_over [] = refl
step_back-step_over (n ∷ s) = ground (arith, step_back-step_over s)

pub crypto-CryptoLaws : CryptoLaws crypto
crypto-CryptoLaws = record {
  no_dot = step_over-Lacks;
  decode-encode = λ s. ap some (step_back-step_over s);
  decode-claims = λ k. refl;
}
