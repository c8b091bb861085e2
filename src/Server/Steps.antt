-- ===== src/Server/Steps.antt =====
-- cmd/server/main.go: the running server, whose handlers and loops change the manager and the database. The hooks of
-- the administrator change the manager under its lock and then write the table, without a lock around both, so
-- they are two steps. Any other step is a request, a round of the watcher, a probe or a round of the retention.
use sounding.Prelude.{
  Bool, Float, ◌*◌, List, [], ◌∷◌, ◌++◌, Text, ℤ, Option, none, some, Result, ok, err,
}
use sounding.Json.{Json}
use sounding.Clock.{Time, minute}
use sounding.Alert.Manager.{Manager, new_manager, manager_set, manager_delete}
use sounding.Alert.Rules.{Rule}
use sounding.Alert.Watcher.{Snapshot, watch_round}
use sounding.Store.Db.{Db}
use sounding.Store.Status.{alert_snapshots}
use sounding.Store.Records.{retention_tick}
use sounding.Store.Rules.{save_alert_rule, delete_alert_rule}
use sounding.Scheduler.{Run}
use sounding.Probing.{Network, run_task}
use sounding.Api.{Env, Request}
use sounding.Api.Agent.{agent_serve}
use sounding.Api.Admin.{State, serve_nodes, serve_probes}
use sounding.Server.Rules.{start_rules}
use sounding.Server.Routes.{ChannelFlags, notifiers_of}
use sounding.Rpc.Types.{Handler}
use sounding.Rpc.Dispatch.{rpc_serve}

-- What main passes to the handlers and the loops.
pub record Setup : Type 0 where
  pub env : Env
  pub agent_token : Text
  pub network : Network
  pub retain_days : ℤ

-- The manager and the database after the block of main about alerts, which follows the seeding.
unfoldable pub start_alerts : Json → Bool → Float → ChannelFlags → Db → State
unfolding start_rules
start_alerts j offline latency flags db =
    let (rules, db') = start_rules j offline latency db in
    (new_manager rules (notifiers_of flags) (5 * minute), db')

abbrev pub at_time : Env → Time → Env
at_time env now = record env { now = now }

abbrev or_none : Result (List Snapshot) → Option (List Snapshot)
or_none (ok snaps) = some snaps
or_none (err e) = none

-- A round of `Watch` over the store.
unfoldable pub watch_store : Env → State → State
watch_store env (m, db) =
    let (snaps, db') = alert_snapshots env.zone env.now db in
    ((watch_round env.zone env.now (or_none snaps) m).0, db')

-- What a hook writes to the table.
pub data Write : Type 0 where
  save : (r : Rule) → Write
  remove : (kind node : Text) → Write

-- The first call of a hook, on the manager.
unfoldable pub begun : Write → Manager → Manager
begun (save r) m = manager_set r m
begun (remove kind node) m = manager_delete kind node m

-- Its second call, on the database.
unfoldable pub written : Json → Write → Db → Db
written j (save r) db = (save_alert_rule j r db).1
written j (remove kind node) db = (delete_alert_rule kind node db).1

-- The writes of hooks that have begun, the oldest first, and the state.
abbrev pub Running : Type 0
Running = List Write × State

-- The requests for nodes and probes are those that are let in; a refused one changes nothing.
pub data Step (srv : Setup) : Running → Running → Type 0 where
  agent :
      (now : Time) (r : Request) (ws : List Write) (m : Manager) (db : Db)
      → Step srv (ws, (m, db)) (ws, (m, (agent_serve (at_time srv.env now) srv.agent_token r db).1))
  nodes :
      (now : Time) (r : Request) (ws : List Write) (m : Manager) (db : Db)
      → Step srv (ws, (m, db)) (ws, (serve_nodes (at_time srv.env now) r (m, db)).1)
  probes :
      (now : Time) (r : Request) (ws : List Write) (m : Manager) (db : Db)
      → Step srv (ws, (m, db)) (ws, (serve_probes (at_time srv.env now) r (m, db)).1)
  rpc :
      (handler : Handler) (body : Text) (ws : List Write) (m : Manager) (db : Db)
      → Step srv (ws, (m, db)) (ws, (m, (rpc_serve handler body db).1))
  watch :
      (now : Time) (ws : List Write) (m : Manager) (db : Db)
      → Step srv (ws, (m, db)) (ws, watch_store (at_time srv.env now) (m, db))
  probe :
      (now : Time) (r : Run) (ws : List Write) (m : Manager) (db : Db)
      → Step srv (ws, (m, db)) (ws, (m, run_task srv.network srv.env.zone now r db))
  retain :
      (now : Time) (ws : List Write) (m : Manager) (db : Db)
      → Step srv (ws, (m, db)) (ws, (m, retention_tick srv.env.zone now srv.retain_days db))
  begin :
      (w : Write) (ws : List Write) (m : Manager) (db : Db)
      → Step srv (ws, (m, db)) (ws ++ w ∷ [], (begun w m, db))
  finish :
      (older newer : List Write) (w : Write) (m : Manager) (db : Db)
      → Step srv (older ++ w ∷ newer, (m, db)) (older ++ newer, (m, written srv.env.json w db))

-- The states that steps lead to, in any order.
pub data Reaches (srv : Setup) : Running → Running → Type 0 where
  here : (s : Running) → Reaches srv s s
  then_step : (s t u : Running) → Reaches srv s t → Step srv t u → Reaches srv s u
