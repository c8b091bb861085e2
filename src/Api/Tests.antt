-- ===== src/Api/Tests.antt =====
-- Examples of the theorems on the HTTP endpoints.
use mathlib.Core.List.{cons-ne-nil}
use sounding.Prelude.{
  ◌/◌, ◌*◌, ◌≡◌, ◌≢◌, ◌⊎◌, refl, ap, true, false, ◌&&◌, some, [], ◌∷◌, ◌++◌, Text, any, bytes, same,
  is_empty, ok, arith,
}
use sounding.Strings.{trim_prefix}
use sounding.Clock.{second, hour}
use sounding.Auth.{Claims, verify}
use sounding.Store.Db.{TaskRow}
use sounding.Store.ProbeLaws.{task_named}
use sounding.Alert.Manager.{Manager}
use sounding.Api.{Request, answered, Answer}
use sounding.Api.Agent.{agent_serve, is_stranger}
use sounding.Api.AgentLaws.{IsRefused, agent_serve-refused, agent_serve-records, mentions}
use sounding.Api.Admin.{AdminEndpoint, State, admin_serve, is_admin}
use sounding.Api.AdminLaws.{admin_serve-credentials, admin_serve-refused}
use sounding.Prelude.{[], ◌∷◌}
use sounding.Api.Login.{LoginEndpoint, login_serve}
use sounding.Api.LoginLaws.{login_serve-is_admin}
use sounding.Server.Rules.{set_alert}
use sounding.Alert.Manager.{manager_set}
use sounding.Alert.Rules.{set_rule}
use sounding.Prelude.{◌≢◌, List}
use sounding.Clock.{Time}
use sounding.Api.AdminAgreement.{IsConsistent, after_requests, admin_serve-IsConsistent}
use sounding.Samples.{json, json-JsonLaws}
use sounding.Samples.{env, request, payload, db, manager, rule, crypto-CryptoLaws}

abbrev report : Request
report = request (bytes "POST") (bytes "/agent/status")

is_post : same (bytes "POST") (bytes "POST") ≡ true
unfolding same bytes
is_post = refl

known : is_stranger [] report ≡ false
unfolding is_stranger
known = refl

named : any (mentions (bytes "dns")) payload.probes ≡ true
unfolding same bytes
named = refl

abbrev reading : Request
reading = request (bytes "GET") (bytes "/agent/status")

reading-IsRefused : IsRefused (agent_serve env [] reading db).0
unfolding agent_serve same bytes
reading-IsRefused = omega arith

agent_serve-refused_example : (agent_serve env [] reading db).1 ≡ db
agent_serve-refused_example = agent_serve-refused env [] reading db reading-IsRefused

agent_serve-records_example :
    ((agent_serve env [] report db).0 ≡ answered Answer.done)
    × ((agent_serve env [] report db).1.status_history
        ≡ db.status_history
          ++ record {
            client = payload.uuid;
            time = env.zone.format_time env.now;
            status = payload.status;
          }
            ∷ [])
    × (t : TaskRow) × (task_named payload.uuid (bytes "dns") (agent_serve env [] report db).1
        ≡ some t)
    × (t.enabled ≡ 1)
agent_serve-records_example =
    agent_serve-records env [] report payload (bytes "dns") db refl is_post known refl named

abbrev endpoint : AdminEndpoint
endpoint = record { token = bytes "t"; jwt_secret = bytes "s"; has_hooks = true }

abbrev fresh : Manager
fresh = record manager { rules = [] }

-- A request with the token that sets a rule.
abbrev posting : Request
posting = record (request (bytes "POST") (bytes "/api/admin/alerts")) { admin_token = bytes "t" }

posting_changes : (admin_serve endpoint env posting (fresh, db)).1 ≢ (fresh, db)
unfolding admin_serve same bytes set_alert manager_set set_rule
posting_changes h = cons-ne-nil rule [] (ap (λ (x : State). x.0.rules) h)

configured : (is_empty endpoint.token && is_empty endpoint.jwt_secret) ≡ false
unfolding bytes
configured = refl

admin_serve-credentials_example :
    ((is_empty endpoint.token ≡ false) × (posting.admin_token ≡ endpoint.token))
    ⊎ ((claims : Claims) × (verify env.crypto env.now endpoint.jwt_secret
            (trim_prefix posting.authorization (bytes "Bearer "))
          ≡ ok claims))
admin_serve-credentials_example =
    admin_serve-credentials endpoint env posting (fresh, db) configured posting_changes

abbrev anonymous : Request
anonymous = request (bytes "POST") (bytes "/api/admin/alerts")

anonymous-IsRefused : IsRefused (admin_serve endpoint env anonymous (fresh, db)).0
unfolding admin_serve same bytes trim_prefix
anonymous-IsRefused = omega arith

admin_serve-refused_example : (admin_serve endpoint env anonymous (fresh, db)).1 ≡ (fresh, db)
admin_serve-refused_example =
    admin_serve-refused endpoint env anonymous (fresh, db) anonymous-IsRefused

abbrev sign_in_form : LoginEndpoint
sign_in_form = record {
  username = bytes "admin";
  password = bytes "secret";
  secret = bytes "s";
  ttl = 24 * hour;
}

filled : is_empty sign_in_form.secret ≡ false
unfolding bytes
filled = refl

login_serve-is_admin_example :
    (token : Text) × (login_serve sign_in_form env report
      ≡ answered (Answer.login token (24 * hour / second)))
    × (is_admin endpoint
          (record env { now = hour })
          (record anonymous { authorization = bytes "Bearer " ++ token })
        ≡ true)
login_serve-is_admin_example =
    login_serve-is_admin sign_in_form endpoint env hour report anonymous crypto-CryptoLaws refl
      filled is_post refl refl

n2-ne-n1 : bytes "n2" ≢ bytes "n1"
unfolding bytes
n2-ne-n1 h = ground arith

fresh-IsConsistent : IsConsistent json (fresh, db)
fresh-IsConsistent = record {
  keyed = record { works = refl; nodes = ((n2-ne-n1, tt), (tt, tt)); tasks = (tt, tt) };
  agree = λ kind name. refl;
  unique = tt;
}

abbrev two_requests : List (Time × Request)
two_requests =
    (7, request (bytes "POST") (bytes "/api/admin/alerts"))
    ∷ (8, request (bytes "DELETE") (bytes "/api/admin/nodes"))
    ∷ []

admin_serve-IsConsistent_example :
    IsConsistent json (after_requests endpoint env two_requests (fresh, db))
admin_serve-IsConsistent_example =
    admin_serve-IsConsistent endpoint env two_requests (fresh, db) json-JsonLaws fresh-IsConsistent
