-- ===== src/Api/LoginLaws.antt =====
-- internal/api/login.go and admin.go: a token, from the login to the test of the endpoints.
use sounding.Prelude.{
  ℕ, ◌+◌, ◌/◌, ◌≡◌, refl, true, false, ltb, some, [], ◌∷◌, ◌++◌, Text, bytes, same, same_self,
  is_empty, arith,
}
use sounding.Strings.{trim_prefix, strip}
use sounding.Clock.{Time, second}
use sounding.Auth.{issue, token_header, signature}
use sounding.Auth.Laws.{CryptoLaws, verify-issue, issued}
use sounding.Api.{Env, Request, answered, Answer}
use sounding.Api.Login.{LoginEndpoint, login_serve, sign_in}
use sounding.Api.Admin.{AdminEndpoint, is_admin, is_bearer}

strip-append : (p s : Text) → strip p (p ++ s) ≡ some s
unfolding strip
strip-append [] s = refl
strip-append (c ∷ p) s = ground (arith, strip-append p s)

trim_prefix-append : (p s : Text) → trim_prefix (p ++ s) p ≡ s
unfolding trim_prefix
trim_prefix-append p s = rw (trim_prefix, strip-append p s) refl

append_filled : (p : Text) (c : ℕ) (s : Text) → is_empty (p ++ c ∷ s) ≡ false
append_filled [] c s = refl
append_filled (d ∷ p) c s = refl

-- The right name and password are answered by a token which, as a bearer's, lets a request through to the
-- administrator's endpoints with the same secret, until the second in which it expires is over.
pub login_serve-is_admin :
    (l : LoginEndpoint) (h : AdminEndpoint) (env : Env) (later : Time) (r req : Request)
    → CryptoLaws env.crypto
    → h.jwt_secret ≡ l.secret
    → is_empty l.secret ≡ false
    → same r.method (bytes "POST") ≡ true
    → env.decoders.credentials r.body ≡ some (l.username, l.password)
    → ltb ((env.now + l.ttl) / second) (later / second) ≡ false
    → (token : Text) × (login_serve l env r ≡ answered (Answer.login token (l.ttl / second)))
      × (is_admin h
            (record env { now = later })
            (record req { authorization = bytes "Bearer " ++ token })
          ≡ true)
unfolding login_serve sign_in is_admin is_bearer issue
login_serve-is_admin l h env later r req laws same_secret filled post given early =
    let token = issue env.crypto env.now l.secret l.username l.ttl in
    let signing =
      env.crypto.encode_base64 token_header
      ++ b'.'
        ∷ env.crypto.encode_base64 (env.crypto.encode_claims (issued env.now l.username l.ttl)) in
    let verified = verify-issue env.crypto laws l.secret env.now later l.username l.ttl in
    (
      token,
      rw (post, given, same_self l.username, same_self l.password) refl,
      rw
          (
            trim_prefix-append (bytes "Bearer ") token,
            same_secret,
            filled,
            append_filled signing b'.' (signature env.crypto l.secret signing),
            verified,
            early,
          )
          (ground arith),
    )
