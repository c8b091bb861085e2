-- ===== src/Api/Login.antt =====
-- internal/api/login.go: signing in, and the test of the token.
use sounding.Prelude.{
  ◌*◌, ◌/◌, Bool, true, false, not, ◌||◌, Option, none, some, Text, bytes, same, or_else,
  if◌then◌else◌, ok, err,
}
use sounding.Strings.{trim_prefix}
use sounding.Clock.{Duration, hour, second}
use sounding.Auth.{issue, verify}
use sounding.Api.{Env, Request, Response, refused, answered, Answer}

pub record LoginEndpoint : Type 0 where
  pub username : Text
  pub password : Text
  pub secret : Text
  pub ttl : Duration

-- `NewLoginEndpoint`, with the secret that `RandomSecret` would give.
unfoldable pub new_login_endpoint : Text → Text → Text → Text → LoginEndpoint
new_login_endpoint fresh user pass secret = record {
  username = user;
  password = pass;
  secret = or_else secret fresh;
  ttl = 24 * hour;
}

unfoldable pub sign_in : LoginEndpoint → Env → Option (Text × Text) → Response
sign_in h env none = refused 400 (bytes "bad payload")
sign_in h env (some (user, pass)) =
    if not (same user h.username) || not (same pass h.password)
    then answered Answer.wrong_login
    else answered (Answer.login (issue env.crypto env.now h.secret user h.ttl) (h.ttl / second))

-- `LoginEndpoint.ServeHTTP`
unfoldable pub login_serve : LoginEndpoint → Env → Request → Response
unfolding sign_in
login_serve h env r =
    if not (same r.method (bytes "POST"))
    then refused 405 (bytes "method not allowed")
    else sign_in h env (env.decoders.credentials r.body)

-- The token of a request: a bearer's, or else the administrator's header.
unfoldable pub token_of : Request → Text
token_of r = or_else (trim_prefix r.authorization (bytes "Bearer ")) r.admin_token

-- The test of `AuthMiddleware`.
unfoldable pub is_signed_in : LoginEndpoint → Env → Request → Bool
unfolding token_of
is_signed_in h env r = elim (verify env.crypto env.now h.secret (token_of r)) [
  | ok claims ↦ true
  | err e ↦ false
]
