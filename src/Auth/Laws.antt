-- ===== src/Auth/Laws.antt =====
-- Which tokens are accepted.
use sounding.Prelude.{
  ◌+◌, ◌/◌, ◌≤◌, ◌≡◌, refl, sym, ap, Option, none, some, List, [], ◌∷◌, ◌++◌, append_assoc, Text,
  bytes, same, same_self, same_iff, ltb, if◌then◌else◌, ok, err, Bool-cases, Option-cases, inl, inr,
  arith,
}
use sounding.Strings.{split, join}
use sounding.Strings.Laws.{Lacks, split-join}
use sounding.Clock.{Time, Duration, second}
use sounding.Auth.{
  Claims, Crypto, token_header, signature, issue, verify, verify_parts, read_claims, check_expiry,
}

-- What is relied on: base64 has no dot, and what is encoded decodes.
pub record CryptoLaws (c : Crypto) : Type 0 where
  pub no_dot : (s : Text) → Lacks b'.' (c.encode_base64 s)
  pub decode-encode : (s : Text) → c.decode_base64 (c.encode_base64 s) ≡ some s
  pub decode-claims : (k : Claims) → c.decode_claims (c.encode_claims k) ≡ some k

abbrev pub issued : Time → Text → Duration → Claims
issued now subject ttl = record { sub = subject; exp = (now + ttl) / second; iat = now / second }

module _ (c : Crypto) (laws : CryptoLaws c) (secret : Text) where
  split_signed :
      (h p s : Text)
      → Lacks b'.' h
      → Lacks b'.' p
      → Lacks b'.' s
      → split b'.' ((h ++ b'.' ∷ p) ++ b'.' ∷ s) ≡ h ∷ p ∷ s ∷ []
  unfolding join
  split_signed h p s a b d =
      rw (append_assoc h (b'.' ∷ p) (b'.' ∷ s)) (split-join b'.' h (p ∷ s ∷ []) (a, (b, (d, tt))))

  -- A token verifies with the secret that it was issued with, and gives its claims, up to the second
  -- in which it expires; from the next second on it is refused.
  pub verify-issue :
      (now later : Time) (subject : Text) (ttl : Duration)
      → verify c later secret (issue c now secret subject ttl) ≡ (
          if ltb ((now + ttl) / second) (later / second)
          then err (bytes "token expired")
          else ok (issued now subject ttl))
  unfolding verify issue verify_parts read_claims check_expiry signature
  verify-issue now later subject ttl =
      let claims = issued now subject ttl in
      let h = c.encode_base64 token_header in
      let p = c.encode_base64 (c.encode_claims claims) in
      rw
        (
          split_signed h p (signature c secret (h ++ b'.' ∷ p)) (laws.no_dot _) (laws.no_dot _)
              (laws.no_dot _),
          same_self (signature c secret (h ++ b'.' ∷ p)),
          laws.decode-encode (c.encode_claims claims),
          read_claims,
          laws.decode-claims claims,
        )
        refl

unexpired :
    (now : Time) (k claims : Claims) → check_expiry now k ≡ ok claims → now / second ≤ claims.exp
unfolding check_expiry
unexpired now k claims e = elim (Bool-cases (ltb k.exp (now / second))) [
  | inl late ↦ cc (rw late at e)
  | inr early ↦ ground (arith, rw early at e)
]

read_claims_unexpired :
    (c : Crypto) (now : Time) (o : Option Text) (claims : Claims)
    → read_claims c now o ≡ ok claims
    → now / second ≤ claims.exp
unfolding read_claims
read_claims_unexpired c now none claims e = cc
read_claims_unexpired c now (some body) claims e = elim (Option-cases (c.decode_claims body)) [
  | inl bad ↦ cc (rw (bad, read_claims) at e)
  | inr (k, good) ↦ unexpired now k claims (rw (good, read_claims) at e)
]

verify_parts-accepted :
    (c : Crypto) (now : Time) (secret : Text) (claims : Claims) (parts : List Text)
    → verify_parts c now secret parts ≡ ok claims
    → (h : Text) × (p : Text) × (parts ≡ h ∷ p ∷ signature c secret (h ++ b'.' ∷ p) ∷ [])
      × (now / second ≤ claims.exp)
unfolding verify_parts
verify_parts-accepted c now secret claims (h ∷ p ∷ s ∷ []) e =
    elim (Bool-cases (same (signature c secret (h ++ b'.' ∷ p)) s)) [
      | inl equal ↦ (
        h,
        p,
        ap (λ x. h ∷ p ∷ x ∷ []) (sym ((same_iff (signature c secret (h ++ b'.' ∷ p)) s).0 equal)),
        read_claims_unexpired c now (c.decode_base64 p) claims (rw equal at e),
      )
      | inr other ↦ cc (rw other at e)
    ]
verify_parts-accepted c now secret claims [] e = cc
verify_parts-accepted c now secret claims (h ∷ []) e = cc
verify_parts-accepted c now secret claims (h ∷ p ∷ []) e = cc
verify_parts-accepted c now secret claims (h ∷ p ∷ s ∷ x ∷ xs) e = cc

-- Whatever the text, a token is accepted only if it has three parts, the third is the signature of the
-- first two under the secret, and its claims have not expired.
pub verify-accepted :
    (c : Crypto) (now : Time) (secret token : Text) (claims : Claims)
    → verify c now secret token ≡ ok claims
    → (h : Text) × (p : Text) × (split b'.' token ≡ h ∷ p ∷ signature c secret (h ++ b'.' ∷ p) ∷ [])
      × (now / second ≤ claims.exp)
unfolding verify
verify-accepted c now secret token claims e =
    verify_parts-accepted c now secret claims (split b'.' token) e
