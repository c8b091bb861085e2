-- ===== src/Server/Invariants.antt =====
-- cmd/server/main.go: what holds in every state of the running server.
use sounding.Prelude.{◌≡◌, refl, Text, Bool-cases, inl, inr, List, [], ◌∷◌, bytes}
use sounding.Json.{Json}
use sounding.Alert.Manager.{Manager}
use sounding.Alert.Watcher.{watch_round, snapshots_events}
use sounding.Store.Db.{Db}
use sounding.Store.Keys.{IsKeyed}
use sounding.Store.StatusLaws.{alert_snapshots-offline}
use sounding.Server.Agreement.{JsonLaws}
use sounding.Api.{Env}
use sounding.Api.Admin.{State}
use sounding.Api.AdminAgreement.{delete_alert_rule_lem}
use sounding.Rpc.DispatchLaws.{rpc_serve-kept}
use sounding.Probing.Laws.{run_task-records}
use sounding.Clock.{Time}
use sounding.Scheduler.{Run}
use sounding.Probing.{run_task}
use sounding.Rpc.Types.{Handler}
use sounding.Rpc.Dispatch.{rpc_serve}
use sounding.Server.Steps.{Setup, watch_store}
use sounding.Server.Kept.{IsKeptKeyed, evaluate_all-rules}
use sounding.Prelude.{Bool, bytes, Bool-cases, is_positive, Float}
use sounding.Prelude.Table.{HasUniqueKeys, delete-HasUniqueKeys, upsert-HasUniqueKeys}
use sounding.Alert.Rules.{Rule}
use sounding.Store.Db.{rule_key}
use sounding.Store.Rules.{save_alert_rule}
use sounding.Server.Rules.{plain_rule, seed_rules, save_all, adopt_rules, start_rules}
use sounding.Server.Start.{load_alert_rules-Agree}
use sounding.Server.Agreement.{save_alert_rule_lem}
use sounding.Server.Steps.{written, Write}

-- The keys of the tables of nodes, tasks and rules are unique, and the database works.
abbrev pub IsSound : Db → Type 0
IsSound db = IsKeyed db × HasUniqueKeys rule_key db.alert_rules

module _ {j : Json} (laws : JsonLaws j) where
  pub save_alert_rule-IsSound :
      (r : Rule) (db : Db) → IsSound db → IsSound (save_alert_rule j r db).1
  save_alert_rule-IsSound r db (k, u) = rw (save_alert_rule_lem laws r db k.works) (
    record { works = k.works; nodes = k.nodes; tasks = k.tasks },
    upsert-HasUniqueKeys rule_key _ _ db.alert_rules (λ old. refl) u,
  )

  save_all-IsSound : (rules : List Rule) (db : Db) → IsSound db → IsSound (save_all j rules db)
  unfolding save_all
  save_all-IsSound [] db sound = sound
  save_all-IsSound (r ∷ rules) db sound =
      save_all-IsSound rules (save_alert_rule j r db).1 (save_alert_rule-IsSound r db sound)

  adopt_rules-IsSound :
      (offline : Bool) (latency : Float) (rules : List Rule) (db : Db)
      → IsSound db
      → IsSound (adopt_rules j offline latency rules db).1
  unfolding adopt_rules
  adopt_rules-IsSound offline latency [] db sound =
      save_all-IsSound (seed_rules offline latency) db sound
  adopt_rules-IsSound offline latency (r ∷ rules) db sound =
      elim (Bool-cases (is_positive latency)) [
        | inl given ↦
            rw given (save_alert_rule-IsSound (plain_rule (bytes "latency") latency) db sound)
        | inr missing ↦ rw missing sound
      ]

  pub start_rules-IsSound :
      (offline : Bool) (latency : Float) (db : Db)
      → IsSound db
      → IsSound (start_rules j offline latency db).1
  unfolding start_rules
  start_rules-IsSound offline latency db (k, u) =
      let (rules, loaded, h) = load_alert_rules-Agree j db k.works u in
      rw loaded (adopt_rules-IsSound offline latency rules db (k, u))

  pub written-IsSound : (w : Write) (db : Db) → IsSound db → IsSound (written j w db)
  unfolding written
  written-IsSound (Write.save r) db sound = save_alert_rule-IsSound r db sound
  written-IsSound (Write.remove kind node) db (k, u) =
      rw (written, delete_alert_rule_lem kind node db k.works)
        (
          record { works = k.works; nodes = k.nodes; tasks = k.tasks },
          delete-HasUniqueKeys rule_key (kind, node) db.alert_rules u,
        )

-- A step other than those of the hooks keeps the manager's rules and the table of rules.
abbrev pub IsQuiet : State → State → Type 0
IsQuiet (m, db) (m', db') = (m'.rules ≡ m.rules) × IsKeptKeyed db db'

pub watch_store-IsQuiet :
    (env : Env) (m : Manager) (db : Db) → IsKeyed db → IsQuiet (m, db) (watch_store env (m, db))
unfolding watch_store watch_round
watch_store-IsQuiet env m db k =
    let (snaps, e, _) = alert_snapshots-offline env.zone env.now [] db k.works in
    rw e (evaluate_all-rules env.zone env.now (snapshots_events snaps) m, (refl, k))

pub run_task-IsKeptKeyed :
    (srv : Setup) (now : Time) (r : Run) (db : Db)
    → IsKeyed db
    → IsKeptKeyed db (run_task srv.network srv.env.zone now r db)
run_task-IsKeptKeyed srv now r db k =
    let (v, e, _) = run_task-records srv.network srv.env.zone now r db k.works in
    rw e (refl, record { works = k.works; nodes = k.nodes; tasks = k.tasks })

pub rpc_serve-IsKeptKeyed :
    (h : Handler) (body : Text) (db : Db) → IsKeyed db → IsKeptKeyed db (rpc_serve h body db).1
rpc_serve-IsKeptKeyed h body db k = rw (rpc_serve-kept h body db k.works) (refl, k)

pub kept-IsSound : (db new : Db) → IsSound db → IsKeptKeyed db new → IsSound new
kept-IsSound db new (k, u) (same_rules, keyed) = (keyed, rw same_rules u)
