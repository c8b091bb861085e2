-- ===== src/Store/Keys.antt =====
-- internal/store: the keys of the tables of nodes and probe tasks, through each statement that writes them.
use sounding.Prelude.{◌≡◌, refl, Bool, [], Text, Float}
use sounding.Prelude.Table.{HasUniqueKeys, upsert-HasUniqueKeys, delete-HasUniqueKeys}
use sounding.Json.{Json}
use sounding.Clock.{Time, Zone}
use sounding.Contract.{Client, AgentStatus}
use sounding.Store.Db.{Db, M, statement, node_key, task_key}
use sounding.Store.Nodes.{upsert_node, refresh, reported_node, admin_upsert_node, admin_delete_node}
use sounding.Store.Probes.{
  upsert_probe_task, admin_upsert_probe_interval, admin_delete_probe, admin_probe_tasks,
}
use sounding.Store.Records.{insert_status}

-- A database that works, with unique keys of nodes and of tasks.
pub record IsKeyed (db : Db) : Type 0 where
  pub works : db.faults ≡ []
  pub nodes : HasUniqueKeys node_key db.nodes
  pub tasks : HasUniqueKeys task_key db.probe_tasks

-- After a method the keys are unique, too, and the table of rules is the same.
abbrev pub KeepsKeys : {A : Type 0} → M A → Type 0
KeepsKeys m = (db : Db) → IsKeyed db → ((m db).1.alert_rules ≡ db.alert_rules) × IsKeyed (m db).1

pub upsert_node-KeepsKeys :
    (j : Json) (uuid name info : Text) → KeepsKeys (upsert_node j uuid name info)
unfolding upsert_node statement refresh reported_node
upsert_node-KeepsKeys j uuid name info db k = rw k.works (
  refl,
  record {
    works = refl;
    nodes = upsert-HasUniqueKeys node_key _ _ db.nodes (λ c. refl) k.nodes;
    tasks = k.tasks;
  },
)

pub insert_status-KeepsKeys :
    (z : Zone) (now : Time) (uuid : Text) (st : AgentStatus)
    → KeepsKeys (insert_status z now uuid st)
unfolding insert_status statement
insert_status-KeepsKeys z now uuid st db k =
    rw k.works (refl, record { works = refl; nodes = k.nodes; tasks = k.tasks })

pub upsert_probe_task-KeepsKeys :
    (client target name typ : Text) (interval : Float) (enabled : Bool)
    → KeepsKeys (upsert_probe_task client target name typ interval enabled)
unfolding upsert_probe_task statement
upsert_probe_task-KeepsKeys client target name typ interval enabled db k = rw k.works (
  refl,
  record {
    works = refl;
    nodes = k.nodes;
    tasks = upsert-HasUniqueKeys task_key _ _ db.probe_tasks (λ t. refl) k.tasks;
  },
)

pub admin_upsert_probe_interval-KeepsKeys :
    (client target name typ : Text) (interval : Float) (enabled : Bool)
    → KeepsKeys (admin_upsert_probe_interval client target name typ interval enabled)
unfolding admin_upsert_probe_interval statement
admin_upsert_probe_interval-KeepsKeys client target name typ interval enabled db k = rw k.works (
  refl,
  record {
    works = refl;
    nodes = k.nodes;
    tasks = upsert-HasUniqueKeys task_key _ _ db.probe_tasks (λ t. refl) k.tasks;
  },
)

pub admin_upsert_node-KeepsKeys : (c : Client) → KeepsKeys (admin_upsert_node c)
unfolding admin_upsert_node statement
admin_upsert_node-KeepsKeys c db k = rw k.works (
  refl,
  record {
    works = refl;
    nodes = upsert-HasUniqueKeys node_key _ _ db.nodes (λ c. refl) k.nodes;
    tasks = k.tasks;
  },
)

pub admin_delete_node-KeepsKeys : (uuid : Text) → KeepsKeys (admin_delete_node uuid)
unfolding admin_delete_node statement
admin_delete_node-KeepsKeys uuid db k = rw k.works (
  refl,
  record {
    works = refl;
    nodes = delete-HasUniqueKeys node_key uuid db.nodes k.nodes;
    tasks = k.tasks;
  },
)

pub admin_probe_tasks-KeepsKeys : KeepsKeys admin_probe_tasks
unfolding admin_probe_tasks statement
admin_probe_tasks-KeepsKeys db k =
    rw k.works (refl, record { works = refl; nodes = k.nodes; tasks = k.tasks })

pub admin_delete_probe-KeepsKeys : (client name : Text) → KeepsKeys (admin_delete_probe client name)
unfolding admin_delete_probe statement
admin_delete_probe-KeepsKeys client name db k = rw k.works (
  refl,
  record {
    works = refl;
    nodes = k.nodes;
    tasks = delete-HasUniqueKeys task_key (client, name) db.probe_tasks k.tasks;
  },
)
