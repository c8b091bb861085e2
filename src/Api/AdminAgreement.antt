-- ===== src/Api/AdminAgreement.antt =====
-- internal/api/admin.go: the requests, over the manager's rules and the table of rules.
use sounding.Prelude.{
  ◌≡◌, refl, ap, Option, none, some, List, [], ◌∷◌, map, Text, ok, Bool-cases, inl, inr,
}
use sounding.Contract.{Client}
use sounding.Alert.Rules.{Rule}
use sounding.Alert.Manager.{Manager}
use sounding.Store.Db.{Db, M, statement}
use sounding.Store.Nodes.{nodes, admin_upsert_node, admin_delete_node}
use sounding.Store.Probes.{admin_probe_tasks, admin_delete_probe}
use sounding.Store.Status.{latest_status}
use sounding.Store.Keys.{
  IsKeyed, KeepsKeys, admin_upsert_node-KeepsKeys, admin_delete_node-KeepsKeys,
  admin_probe_tasks-KeepsKeys, admin_upsert_probe_interval-KeepsKeys, admin_delete_probe-KeepsKeys,
}
use sounding.Store.StatusLaws.{latest_status-kept}
use sounding.Server.Agreement.{
  JsonLaws, Agree, saved, save_alert_rule_lem, set_alert-Agree, delete_alert-Agree,
}
use sounding.Api.{Env, Request, Response, Answer, ProbeForm}
use sounding.Api.Admin.{
  AdminEndpoint, State, is_admin, admin_serve, route, get_nodes, list_nodes, serve_nodes,
  serve_alerts, serve_probes, changed, stored, hooked, post_rule, remove_rule, save_probe,
}
use sounding.Api.AdminLaws.{by_method-cases, route-cases}
use sounding.Prelude.Table.{HasUniqueKeys, delete, upsert-HasUniqueKeys, delete-HasUniqueKeys}
use sounding.Json.{Json}
use sounding.Clock.{Time}
use sounding.Store.Db.{rule_key}
use sounding.Store.Rules.{row_of_rule, delete_alert_rule}
use sounding.Server.Rules.{set_alert, delete_alert}

pub delete_alert_rule_lem :
    (kind node : Text) (db : Db)
    → db.faults ≡ []
    → delete_alert_rule kind node db
      ≡ (ok tt, record db { alert_rules = delete rule_key (kind, node) db.alert_rules })
unfolding delete_alert_rule statement
delete_alert_rule_lem kind node db works = rw works refl

pub nodes-answers : (db : Db) → db.faults ≡ [] → (ns : List Client) × (nodes db ≡ (ok ns, db))
unfolding nodes statement
nodes-answers db works =
    (map {A = Client} (λ c. record c { groups = c.group ∷ [] }) db.nodes, rw works refl)

pub save_probe-KeepsKeys : (p : ProbeForm) → KeepsKeys (save_probe p)
unfolding save_probe
save_probe-KeepsKeys p = admin_upsert_probe_interval-KeepsKeys _ _ _ _ _ _

-- The database works and its tables have unique keys, and the manager and the table of rules agree.
pub record IsConsistent (j : Json) (s : State) : Type 0 where
  pub keyed : IsKeyed s.1
  pub agree : Agree j s.0.rules s.1
  pub unique : HasUniqueKeys rule_key s.1.alert_rules

module _ (env : Env) (laws : JsonLaws env.json) (mgr : Manager) (db : Db)
    (c : IsConsistent env.json (mgr, db)) where
  abbrev ConsistentAfter : Response × State → Type 0
  ConsistentAfter x = IsConsistent env.json x.1

  same_table-IsConsistent :
      (db' : Db) → db'.alert_rules ≡ db.alert_rules → IsKeyed db' → IsConsistent env.json (mgr, db')
  same_table-IsConsistent db' e k = record {
    keyed = k;
    agree = λ kind node. rw e (c.agree kind node);
    unique = rw e c.unique;
  }

  stored-IsConsistent :
      {A : Type 0} (f : A → Answer) (m : M A) → KeepsKeys m → ConsistentAfter (stored f m (mgr, db))
  unfolding stored
  stored-IsConsistent f m keeps =
      let (e, k) = keeps db c.keyed in same_table-IsConsistent (m db).1 e k

  changed-IsConsistent :
      {P : Type 0} (f : P → M (Unit {0})) (o : Option P)
      → ((p : P) → KeepsKeys (f p))
      → ConsistentAfter (changed f o (mgr, db))
  unfolding changed
  changed-IsConsistent f none keeps = c
  changed-IsConsistent f (some p) keeps = stored-IsConsistent (λ _. Answer.done) (f p) (keeps p)

  get_nodes-IsConsistent : ConsistentAfter (get_nodes env (mgr, db))
  unfolding get_nodes list_nodes
  get_nodes-IsConsistent =
      let (ns, e) = nodes-answers db c.keyed.works in
      let kept = latest_status-kept env.zone env.now db c.keyed.works in
      rw e (
        same_table-IsConsistent (latest_status env.zone env.now db).1
          (ap (λ (d : Db). d.alert_rules) kept) (rw kept c.keyed))

  post_rule-IsConsistent : (o : Option Rule) → ConsistentAfter (post_rule env o (mgr, db))
  unfolding post_rule hooked
  post_rule-IsConsistent none = c
  post_rule-IsConsistent (some rule) = record {
    keyed =
        unfold set_alert in
        rw (save_alert_rule_lem laws rule db c.keyed.works)
          (record { works = c.keyed.works; nodes = c.keyed.nodes; tasks = c.keyed.tasks });
    agree = set_alert-Agree laws rule db c.keyed.works mgr c.agree;
    unique =
        unfold set_alert in
        rw (save_alert_rule_lem laws rule db c.keyed.works) (
          upsert-HasUniqueKeys rule_key (saved (row_of_rule env.json rule))
            (row_of_rule env.json rule) db.alert_rules (λ r. refl) c.unique);
  }

  remove_rule-IsConsistent : (o : Option (Text × Text)) → ConsistentAfter (remove_rule o (mgr, db))
  unfolding remove_rule hooked
  remove_rule-IsConsistent none = c
  remove_rule-IsConsistent (some (kind, node)) =
      let gone = delete_alert_rule_lem kind node db c.keyed.works in
      record {
        keyed =
            unfold delete_alert in
            rw gone
              (record { works = c.keyed.works; nodes = c.keyed.nodes; tasks = c.keyed.tasks });
        agree = delete_alert-Agree env.json kind node db c.keyed.works mgr c.agree;
        unique =
            unfold delete_alert in
            rw gone (delete-HasUniqueKeys rule_key (kind, node) db.alert_rules c.unique);
      }

  route-IsConsistent : (h : AdminEndpoint) (r : Request) → ConsistentAfter (route h env r (mgr, db))
  unfolding serve_nodes serve_alerts serve_probes
  route-IsConsistent h r =
      route-cases ConsistentAfter h env r (mgr, db)
        (by_method-cases ConsistentAfter r _ _ _ (mgr, db) get_nodes-IsConsistent
          (changed-IsConsistent admin_upsert_node (env.decoders.client r.body)
            admin_upsert_node-KeepsKeys)
          (changed-IsConsistent admin_delete_node (env.decoders.uuid r.body)
            admin_delete_node-KeepsKeys)
          (λ _ _. c))
        (by_method-cases ConsistentAfter r _ _ _ (mgr, db) c
          (post_rule-IsConsistent (env.decoders.rule r.body))
          (remove_rule-IsConsistent (env.decoders.rule_key r.body)) (λ _ _. c))
        (by_method-cases ConsistentAfter r _ _ _ (mgr, db)
          (stored-IsConsistent Answer.probes admin_probe_tasks admin_probe_tasks-KeepsKeys)
          (changed-IsConsistent save_probe (env.decoders.probe_form r.body) save_probe-KeepsKeys)
          (changed-IsConsistent (λ (k : Text × Text). admin_delete_probe k.0 k.1)
            (env.decoders.probe_key r.body) (λ k. admin_delete_probe-KeepsKeys k.0 k.1))
          (λ _ _. c))
        (λ _. c)

  admin_serve_once :
      (h : AdminEndpoint) (r : Request) → ConsistentAfter (admin_serve h env r (mgr, db))
  unfolding admin_serve
  admin_serve_once h r = elim (Bool-cases (is_admin h env r)) [
    | inl let_in ↦ rw let_in (route-IsConsistent h r)
    | inr stranger ↦ rw stranger c
  ]

-- The state after requests at given instants, one after another.
abbrev pub after_requests : AdminEndpoint → Env → List (Time × Request) → State → State
after_requests h env [] s = s
after_requests h env ((t, r) ∷ rs) s =
    after_requests h env rs (admin_serve h (record env { now = t }) r s).1

-- On a database that works, whatever administrator's requests do that are handled one after another, the manager and
-- the table of rules agree after them, and the keys of rules, nodes and tasks are unique, if both was so before.
pub admin_serve-IsConsistent :
    (h : AdminEndpoint) (env : Env) (rs : List (Time × Request)) (s : State)
    → JsonLaws env.json
    → IsConsistent env.json s
    → IsConsistent env.json (after_requests h env rs s)
admin_serve-IsConsistent h env [] s laws c = c
admin_serve-IsConsistent h env ((t, r) ∷ rs) (mgr, db) laws c =
    admin_serve-IsConsistent h env rs (admin_serve h (record env { now = t }) r (mgr, db)).1 laws
      (admin_serve_once (record env { now = t }) laws mgr db c h r)
