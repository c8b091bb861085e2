-- ===== src/Auth.antt =====
-- internal/auth/auth.go: signed tokens. Base64, HMAC-SHA256 and encoding/json are a parameter.
use sounding.Prelude.{
  ℕ, ◌+◌, ◌/◌, ◌≡◌, Option, none, some, List, [], ◌∷◌, ◌++◌, Text, bytes, same, ltb, if◌then◌else◌,
  Result, ok, err,
}
use sounding.Strings.{split}
use sounding.Clock.{Time, Duration, second}
pub mod Laws
mod Tests

-- Times are in whole seconds since 1970.
pub record Claims : Type 0 where
  pub sub : Text
  pub exp : ℕ
  pub iat : ℕ

-- `base64.RawURLEncoding`, `hmac.New(sha256.New, key)` and the JSON text of the claims.
pub record Crypto : Type 0 where
  pub encode_base64 : Text → Text
  pub decode_base64 : Text → Option Text
  pub mac : Text → Text → Text
  pub encode_claims : Claims → Text
  pub decode_claims : Text → Option Claims

abbrev pub token_header : Text
token_header = bytes "{\"alg\":\"HS256\",\"typ\":\"JWT\"}"

unfoldable pub signature : Crypto → Text → Text → Text
signature c secret signing = c.encode_base64 (c.mac secret signing)

-- `Issue`. The text of claims never fails to be written.
unfoldable pub issue : Crypto → Time → Text → Text → Duration → Text
unfolding signature
issue c now secret subject ttl =
    let claims : Claims = record {
      sub = subject;
      exp = (now + ttl) / second;
      iat = now / second;
    } in
    let signing = c.encode_base64 token_header ++ b'.' ∷ c.encode_base64 (c.encode_claims claims) in
    signing ++ b'.' ∷ signature c secret signing

unfoldable pub check_expiry : Time → Claims → Result Claims
check_expiry now claims =
    if ltb claims.exp (now / second) then err (bytes "token expired") else ok claims

unfoldable pub read_claims : Crypto → Time → Option Text → Result Claims
unfolding check_expiry
read_claims c now none = err (bytes "illegal base64 data")
read_claims c now (some body) = elim (c.decode_claims body) [
  | none ↦ err (bytes "invalid JSON")
  | some claims ↦ check_expiry now claims
]

unfoldable pub verify_parts : Crypto → Time → Text → List Text → Result Claims
unfolding read_claims signature
verify_parts c now secret (h ∷ p ∷ s ∷ []) =
    if same (signature c secret (h ++ b'.' ∷ p)) s
    then read_claims c now (c.decode_base64 p)
    else err (bytes "signature mismatch")
verify_parts c now secret _ = err (bytes "malformed token")

unfoldable pub verify : Crypto → Time → Text → Text → Result Claims
unfolding verify_parts
verify c now secret token = verify_parts c now secret (split b'.' token)
