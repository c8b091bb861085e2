-- ===== src/Auth/Tests.antt =====
-- Examples of the theorems on tokens.
use sounding.Prelude.{
  ◌+◌, ◌*◌, ◌/◌, ◌≤◌, ◌≡◌, [], ◌∷◌, ◌++◌, Text, bytes, ltb, if◌then◌else◌, ok, err,
}
use sounding.Strings.{split}
use sounding.Clock.{second, minute}
use sounding.Auth.{signature, issue, verify}
use sounding.Samples.{crypto, crypto-CryptoLaws}
use sounding.Auth.Laws.{issued, verify-issue, verify-accepted}

abbrev token : Text
token = issue crypto 0 (bytes "key") (bytes "admin") minute

verify-issue_example : verify crypto (5 * second) (bytes "key") token ≡ (
    if ltb ((0 + minute) / second) (5 * second / second)
    then err (bytes "token expired")
    else ok (issued 0 (bytes "admin") minute))
verify-issue_example =
    verify-issue crypto crypto-CryptoLaws (bytes "key") 0 (5 * second) (bytes "admin") minute

accepted : verify crypto (5 * second) (bytes "key") token ≡ ok (issued 0 (bytes "admin") minute)
accepted = verify-issue_example

verify-accepted_example :
    (h : Text) × (p : Text) × (split b'.' token
      ≡ h ∷ p ∷ signature crypto (bytes "key") (h ++ b'.' ∷ p) ∷ [])
    × (5 * second / second ≤ 60)
verify-accepted_example =
    verify-accepted crypto (5 * second) (bytes "key") token (issued 0 (bytes "admin") minute)
      accepted
