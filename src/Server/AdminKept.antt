-- ===== src/Server/AdminKept.antt =====
-- internal/api/admin.go: the requests about nodes and probes, which leave the rules alone.
use sounding.Prelude.{◌≡◌, refl, ap, Option, none, some, Text}
use sounding.Alert.Manager.{Manager}
use sounding.Store.Db.{Db, M}
use sounding.Store.Nodes.{admin_upsert_node, admin_delete_node}
use sounding.Store.Probes.{admin_probe_tasks, admin_delete_probe}
use sounding.Store.StatusLaws.{latest_status-kept}
use sounding.Store.Keys.{
  IsKeyed, KeepsKeys, admin_upsert_node-KeepsKeys, admin_delete_node-KeepsKeys,
  admin_probe_tasks-KeepsKeys, admin_delete_probe-KeepsKeys,
}
use sounding.Api.{Env, Request, Response, Answer}
use sounding.Api.Admin.{
  State, get_nodes, list_nodes, serve_nodes, serve_probes, changed, stored, save_probe,
}
use sounding.Api.AdminLaws.{by_method-cases}
use sounding.Api.AdminAgreement.{nodes-answers, save_probe-KeepsKeys}
use sounding.Server.Kept.{IsKeptKeyed}

module _ (env : Env) (mgr : Manager) (db : Db) (k : IsKeyed db) where
  -- The manager is the same, and the database has the same rules and unique keys.
  abbrev pub IsKept : Response × State → Type 0
  IsKept x = (x.1.0 ≡ mgr) × IsKeptKeyed db x.1.1

  stored-IsKept :
      {A : Type 0} (f : A → Answer) (m : M A) → KeepsKeys m → IsKept (stored f m (mgr, db))
  unfolding stored
  stored-IsKept f m keeps = (refl, keeps db k)

  changed-IsKept :
      {P : Type 0} (f : P → M (Unit {0})) (o : Option P)
      → ((p : P) → KeepsKeys (f p))
      → IsKept (changed f o (mgr, db))
  unfolding changed
  changed-IsKept f none keeps = (refl, (refl, k))
  changed-IsKept f (some p) keeps = stored-IsKept (λ _. Answer.done) (f p) (keeps p)

  get_nodes-IsKept : IsKept (get_nodes env (mgr, db))
  unfolding get_nodes list_nodes
  get_nodes-IsKept =
      let (ns, e) = nodes-answers db k.works in
      let kept = latest_status-kept env.zone env.now db k.works in
      rw e (refl, (ap (λ (d : Db). d.alert_rules) kept, rw kept k))

  pub serve_nodes-IsKept : (r : Request) → IsKept (serve_nodes env r (mgr, db))
  unfolding serve_nodes
  serve_nodes-IsKept r =
      by_method-cases IsKept r _ _ _ (mgr, db) get_nodes-IsKept
        (changed-IsKept admin_upsert_node (env.decoders.client r.body) admin_upsert_node-KeepsKeys)
        (changed-IsKept admin_delete_node (env.decoders.uuid r.body) admin_delete_node-KeepsKeys)
        (λ _ _. (refl, (refl, k)))

  pub serve_probes-IsKept : (r : Request) → IsKept (serve_probes env r (mgr, db))
  unfolding serve_probes
  serve_probes-IsKept r =
      by_method-cases IsKept r _ _ _ (mgr, db)
        (stored-IsKept Answer.probes admin_probe_tasks admin_probe_tasks-KeepsKeys)
        (changed-IsKept save_probe (env.decoders.probe_form r.body) save_probe-KeepsKeys)
        (changed-IsKept (λ (key : Text × Text). admin_delete_probe key.0 key.1)
          (env.decoders.probe_key r.body) (λ key. admin_delete_probe-KeepsKeys key.0 key.1))
        (λ _ _. (refl, (refl, k)))
