-- ===== src/Api/Admin.antt =====
-- internal/api/admin.go: the administrator's endpoints, over the manager of alerts and the database.
use sounding.Prelude.{
  Bool, true, false, not, ◌||◌, ◌&&◌, Option, none, some, List, [], Text, bytes, same, is_empty,
  if◌then◌else◌, float, is_positive, Result, ok, err,
}
use sounding.Strings.{trim_prefix}
use sounding.Contract.{Client, NodeStatus}
use sounding.Auth.{verify}
use sounding.Alert.Rules.{Rule}
use sounding.Alert.Manager.{Manager}
use sounding.Store.Db.{Db, M}
use sounding.Store.Nodes.{nodes, admin_upsert_node, admin_delete_node}
use sounding.Store.Probes.{admin_probe_tasks, admin_upsert_probe_interval, admin_delete_probe}
use sounding.Store.Status.{latest_status}
use sounding.Server.Rules.{set_alert, delete_alert}
use sounding.Api.{Env, Request, Response, refused, answered, Answer, ProbeForm}

-- The endpoint; `has_hooks` says that `SetAlertHooksEx` was called, whose hooks are the server's.
pub record AdminEndpoint : Type 0 where
  pub token : Text
  pub jwt_secret : Text
  pub has_hooks : Bool

abbrev pub State : Type 0
State = Manager × Db

-- `auth.Verify(h.jwtSecret, tok)` on a bearer's token that is not empty.
unfoldable pub is_bearer : AdminEndpoint → Env → Text → Bool
is_bearer h env tok =
    not (is_empty tok)
    && elim (verify env.crypto env.now h.jwt_secret tok) [ ok claims ↦ true | err e ↦ false ]

-- `auth`
unfoldable pub is_admin : AdminEndpoint → Env → Request → Bool
unfolding is_bearer
is_admin h env r =
    (not (is_empty h.token) && same r.admin_token h.token)
    || (not (is_empty h.jwt_secret)
        && is_bearer h env (trim_prefix r.authorization (bytes "Bearer ")))
    || (is_empty h.token && is_empty h.jwt_secret)

abbrev not_allowed : Response
not_allowed = refused 405 (bytes "method not allowed")

-- The switch over the method: GET, POST, DELETE or another.
unfoldable pub by_method :
    Request → Response × State → Response × State → Response × State → State → Response × State
by_method r get post delete s =
    if same r.method (bytes "GET")
    then get
    else if same r.method (bytes "POST")
    then post
    else if same r.method (bytes "DELETE")
    then delete
    else (not_allowed, s)

abbrev bad_payload : Response
bad_payload = refused 400 (bytes "bad payload")

-- An error is answered by 500.
unfoldable pub answer_of {ℓ} : {A : Type ℓ} → (A → Answer) → Result A → Response
answer_of f (ok a) = answered (f a)
answer_of f (err e) = refused 500 e

-- A method of the store, run on the database of the state.
unfoldable pub stored : {A : Type 0} → (A → Answer) → M A → State → Response × State
unfolding answer_of
stored f m (mgr, db) = let (res, db') = m db in (answer_of f res, (mgr, db'))

-- A change whose payload is decoded first.
unfoldable pub changed : {P : Type 0} → (P → M (Unit {0})) → Option P → State → Response × State
unfolding stored
changed f none s = (bad_payload, s)
changed f (some p) s = stored (λ _. Answer.done) (f p) s

unfoldable pub statuses_or_none : Result (List NodeStatus) → List NodeStatus
statuses_or_none (ok ns) = ns
statuses_or_none (err e) = []

-- The nodes with their statuses; an error of the statuses leaves them out.
unfoldable pub list_nodes : Env → Result (List Client) → State → Response × State
unfolding statuses_or_none
list_nodes env (err e) s = (refused 500 e, s)
list_nodes env (ok ns) (mgr, db) =
    let (statuses, db') = latest_status env.zone env.now db in
    (answered (Answer.nodes ns (statuses_or_none statuses)), (mgr, db'))

-- /api/admin/nodes
unfoldable pub get_nodes : Env → State → Response × State
unfolding list_nodes
get_nodes env (mgr, db) = let (ns, db') = nodes db in list_nodes env ns (mgr, db')

unfoldable pub serve_nodes : Env → Request → State → Response × State
unfolding by_method get_nodes changed
serve_nodes env r s =
    by_method r (get_nodes env s) (changed admin_upsert_node (env.decoders.client r.body) s)
      (changed admin_delete_node (env.decoders.uuid r.body) s) s

-- A hook of the server, whose error is answered by 500.
unfoldable pub hooked : Result (Unit {0}) × State → Response × State
unfolding answer_of
hooked (res, s) = (answer_of (λ _. Answer.done) res, s)

unfoldable pub post_rule : Env → Option Rule → State → Response × State
unfolding hooked
post_rule env none s = (bad_payload, s)
post_rule env (some rule) s = hooked (set_alert env.json rule s)

unfoldable pub remove_rule : Option (Text × Text) → State → Response × State
unfolding hooked
remove_rule none s = (bad_payload, s)
remove_rule (some (kind, node)) s = hooked (delete_alert kind node s)

-- /api/admin/alerts, once the hooks are set
unfoldable pub serve_alerts : Env → Request → State → Response × State
unfolding by_method post_rule remove_rule
serve_alerts env r s =
    by_method r (answered (Answer.rules s.0.rules), s) (post_rule env (env.decoders.rule r.body) s)
      (remove_rule (env.decoders.rule_key r.body) s) s

-- A probe is enabled if the form says nothing, and its interval is a minute if none is given.
unfoldable pub save_probe : ProbeForm → M (Unit {0})
save_probe p =
    admin_upsert_probe_interval p.client p.target p.name p.type
      (if is_positive p.interval_sec then p.interval_sec else float 60)
      (elim p.enabled [ none ↦ true | some b ↦ b ])

-- /api/admin/probes
unfoldable pub serve_probes : Env → Request → State → Response × State
unfolding by_method stored changed save_probe
serve_probes env r s =
    by_method r (stored Answer.probes admin_probe_tasks s)
      (changed save_probe (env.decoders.probe_form r.body) s)
      (changed (λ k. admin_delete_probe k.0 k.1) (env.decoders.probe_key r.body) s) s

-- The switch over the path.
unfoldable pub route : AdminEndpoint → Env → Request → State → Response × State
unfolding serve_nodes serve_alerts serve_probes
route h env r s =
    if same r.path (bytes "/api/admin/nodes")
    then serve_nodes env r s
    else if same r.path (bytes "/api/admin/alerts")
    then (if h.has_hooks then serve_alerts env r s else (answered (Answer.rules []), s))
    else if same r.path (bytes "/api/admin/probes")
    then serve_probes env r s
    else (refused 404 (bytes "404 page not found"), s)

-- `AdminEndpoint.ServeHTTP`
unfoldable pub admin_serve : AdminEndpoint → Env → Request → State → Response × State
unfolding is_admin route
admin_serve h env r s =
    if is_admin h env r then route h env r s else (refused 401 (bytes "unauthorized"), s)
