-- ===== src/Api/AdminLaws.antt =====
-- Who may use the administrator's endpoints, and what a request changes.
use sounding.Prelude.{
  ◌⊎◌, ◌≡◌, ◌≢◌, refl, true, false, not, ◌&&◌, Option, none, some, List, Text, bytes, same,
  same_iff, is_empty, Result, ok, err, Bool-cases, Result-cases, inl, inr, arith,
}
use sounding.Strings.{trim_prefix}
use sounding.Contract.{Client}
use sounding.Auth.{Claims, verify}
use sounding.Alert.Rules.{Rule}
use sounding.Store.Db.{M}
use sounding.Store.Nodes.{nodes, admin_upsert_node, admin_delete_node}
use sounding.Store.Probes.{admin_probe_tasks, admin_delete_probe}
use sounding.Server.Rules.{set_alert, delete_alert}
use sounding.Api.{Env, Request, Response, Answer}
use sounding.Api.AgentLaws.{IsRefused}
use sounding.Api.Admin.{
  AdminEndpoint, State, is_bearer, is_admin, admin_serve, by_method, get_nodes, route, serve_nodes,
  serve_alerts, serve_probes, changed, stored, answer_of, hooked, post_rule, remove_rule,
  list_nodes, save_probe,
}

is_bearer-verify :
    (h : AdminEndpoint) (env : Env) (tok : Text)
    → is_bearer h env tok ≡ true
    → (claims : Claims) × (verify env.crypto env.now h.jwt_secret tok ≡ ok claims)
unfolding is_bearer
is_bearer-verify h env tok e = elim (Result-cases (verify env.crypto env.now h.jwt_secret tok)) [
  | inl (k, good) ↦ (k, good)
  | inr (m, bad) ↦ ground (arith, rw (bad, is_bearer) at e)
]

-- If the endpoint has a token or a secret, a request that changes the rules or the database bears that
-- token, or a bearer's token that verifies with that secret at that time.
pub admin_serve-credentials :
    (h : AdminEndpoint) (env : Env) (r : Request) (s : State)
    → (is_empty h.token && is_empty h.jwt_secret) ≡ false
    → (admin_serve h env r s).1 ≢ s
    → ((is_empty h.token ≡ false) × (r.admin_token ≡ h.token))
      ⊎ ((claims : Claims) × (verify env.crypto env.now h.jwt_secret
              (trim_prefix r.authorization (bytes "Bearer "))
            ≡ ok claims))
unfolding admin_serve is_admin
admin_serve-credentials h env r s configured changes = elim (Bool-cases (is_admin h env r)) [
  | inr refused_one ↦ absurd (changes (rw refused_one refl))
  | inl let_in ↦ elim (Bool-cases (not (is_empty h.token) && same r.admin_token h.token)) [
    | inl bears ↦ inl (ground arith, (same_iff r.admin_token h.token).0 (ground arith))
    | inr bears_none ↦ inr (
        is_bearer-verify h env (trim_prefix r.authorization (bytes "Bearer "))
          (ground (arith, let_in)))
  ]
]

answer_of-answers : {A : Type 0} (f : A → Answer) (res : Result A) → ¬ IsRefused (answer_of f res)
unfolding answer_of
answer_of-answers f (ok a) h = h
answer_of-answers f (err e) h = omega arith

changed-refused :
    {P : Type 0} (f : P → M (Unit {0})) (o : Option P) (s : State)
    → IsRefused (changed f o s).0
    → (changed f o s).1 ≡ s
unfolding changed stored
changed-refused f none s h = refl
changed-refused f (some p) (mgr, db) h = absurd (answer_of-answers (λ _. Answer.done) (f p db).0 h)

-- What holds of each branch holds of the switch.
module _ (P : Response × State → Type 0) where
  pub by_method-cases :
      (r : Request) (get post gone : Response × State) (s : State)
      → P get
      → P post
      → P gone
      → ((code : Response) → IsRefused code → P (code, s))
      → P (by_method r get post gone s)
  unfolding by_method
  by_method-cases r get post gone s a b c d = elim (Bool-cases (same r.method (bytes "GET"))) [
    | inl is_get ↦ rw is_get a
    | inr no_get ↦ elim (Bool-cases (same r.method (bytes "POST"))) [
      | inl is_post ↦ rw (no_get, is_post) b
      | inr no_post ↦ elim (Bool-cases (same r.method (bytes "DELETE"))) [
        | inl is_delete ↦ rw (no_get, no_post, is_delete) c
        | inr other ↦ rw (no_get, no_post, other) (d _ (omega arith))
      ]
    ]
  ]

  pub route-cases :
      (h : AdminEndpoint) (env : Env) (r : Request) (s : State)
      → P (serve_nodes env r s)
      → P (serve_alerts env r s)
      → P (serve_probes env r s)
      → ((a : Response) → P (a, s))
      → P (route h env r s)
  unfolding route
  route-cases h env r s a b c d = elim (Bool-cases (same r.path (bytes "/api/admin/nodes"))) [
    | inl at_nodes ↦ rw at_nodes a
    | inr no_nodes ↦ elim (Bool-cases (same r.path (bytes "/api/admin/alerts"))) [
      | inl at_alerts ↦ elim (Bool-cases h.has_hooks) [
        | inl hooks ↦ rw (no_nodes, at_alerts, hooks) b
        | inr no_hooks ↦ rw (no_nodes, at_alerts, no_hooks) (d _)
      ]
      | inr no_alerts ↦ elim (Bool-cases (same r.path (bytes "/api/admin/probes"))) [
        | inl at_probes ↦ rw (no_nodes, no_alerts, at_probes) c
        | inr other ↦ rw (no_nodes, no_alerts, other) (d _)
      ]
    ]
  ]

-- A refused request has changed nothing.
abbrev IsKept : State → Response × State → Type 0
IsKept s x = IsRefused x.0 → x.1 ≡ s

post_rule-refused : (env : Env) (o : Option Rule) (s : State) → IsKept s (post_rule env o s)
unfolding post_rule hooked
post_rule-refused env none s h = refl
post_rule-refused env (some rule) s h =
    absurd (answer_of-answers (λ _. Answer.done) (set_alert env.json rule s).0 h)

remove_rule-refused : (o : Option (Text × Text)) (s : State) → IsKept s (remove_rule o s)
unfolding remove_rule hooked
remove_rule-refused none s h = refl
remove_rule-refused (some (kind, node)) s h =
    absurd (answer_of-answers (λ _. Answer.done) (delete_alert kind node s).0 h)

get_nodes-refused : (env : Env) (s : State) → IsKept s (get_nodes env s)
unfolding get_nodes list_nodes
get_nodes-refused env (mgr, db) h =
    absurd (list_nodes-answers env (nodes db).0 (mgr, (nodes db).1) h)
  where
    list_nodes-answers :
        (e : Env) (ns : Result (List Client)) (s : State) → ¬ IsRefused (list_nodes e ns s).0
    list_nodes-answers e (ok ns) (m, d) k = k
    list_nodes-answers e (err x) s k = omega arith

stored-refused : {A : Type 0} (f : A → Answer) (m : M A) (s : State) → IsKept s (stored f m s)
unfolding stored
stored-refused f m (mgr, db) h = absurd (answer_of-answers f (m db).0 h)

-- A request that is refused, for its credentials, path, method or body, changes neither the rules nor the
-- database.
pub admin_serve-refused :
    (h : AdminEndpoint) (env : Env) (r : Request) (s : State)
    → IsRefused (admin_serve h env r s).0
    → (admin_serve h env r s).1 ≡ s
unfolding admin_serve
admin_serve-refused h env r s refusal = elim (Bool-cases (is_admin h env r)) [
  | inr stranger ↦ rw stranger refl
  | inl let_in ↦ rw let_in (routed (rw let_in at refusal))
]
  where
    routed : IsKept s (route h env r s)
    routed =
        route-cases (IsKept s) h env r s
          (unfold serve_nodes in
            by_method-cases (IsKept s) r _ _ _ s (get_nodes-refused env s)
              (changed-refused admin_upsert_node (env.decoders.client r.body) s)
              (changed-refused admin_delete_node (env.decoders.uuid r.body) s) (λ _ _ _. refl))
          (unfold serve_alerts in
            by_method-cases (IsKept s) r _ _ _ s (λ _. refl)
              (post_rule-refused env (env.decoders.rule r.body) s)
              (remove_rule-refused (env.decoders.rule_key r.body) s) (λ _ _ _. refl))
          (unfold serve_probes in
            by_method-cases (IsKept s) r _ _ _ s (stored-refused Answer.probes admin_probe_tasks s)
              (changed-refused save_probe (env.decoders.probe_form r.body) s)
              (changed-refused (λ (k : Text × Text). admin_delete_probe k.0 k.1)
                (env.decoders.probe_key r.body) s)
              (λ _ _ _. refl))
          (λ _ _. refl)
