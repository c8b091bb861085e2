-- ===== src/Store/Tests.antt =====
-- Examples of the theorems on the store.
use mathlib.Core.List.{cons-ne-nil}
use sounding.Prelude.{
  ℕ, ◌+◌, ◌*◌, ◌≡◌, ◌≢◌, refl, Bool, true, false, none, some, List, [], ◌∷◌, Text, arith, any, All,
  if◌then◌else◌, bytes, same, float, pos, is_positive, ok, lookup, is_empty, not,
}
use sounding.Contract.{Client, PingRecord}
use sounding.Store.Db.{Db, StatusRow, same_pair, task_key}
use sounding.Store.Nodes.{upsert_node, parse_os_info, admin_delete_node}
use sounding.Store.NodeLaws.{
  node_of, SameOperatorFields, upsert_node-keeps_operator_fields, upsert_node-resets_cores,
}
use sounding.Store.Probes.{upsert_probe_task}
use sounding.Store.ProbeLaws.{task_named, upsert_probe_task-keeps_interval}
use sounding.Store.Deletion.{Deletion, admin_delete_node-Deletion}
use sounding.Store.Records.{purge, retention_cutoff}
use sounding.Store.RecordLaws.{purge-counts, rows, IsPurged}
use sounding.Store.Secrets.{get_or_create_secret}
use sounding.Store.SecretLaws.{get_or_create_secret-twice}
use sounding.Store.Status.{alert_snapshots, is_online}
use sounding.Store.StatusLaws.{alert_snapshots-offline, says_offline, last_passes, last_of}
use sounding.Alert.Watcher.{Snapshot, snapshots_events}
use sounding.Store.Seeds.{seed_probe_tasks, default_probes}
use sounding.Store.SeedLaws.{KeepsRows, IsSeeded, seed_probe_tasks-IsSeeded}
use sounding.Store.Opening.{Tables, open_store, has_column, added_columns}
use sounding.Store.OpeningLaws.{IsExtended, open_store-IsExtended}
use sounding.Clock.{Time, hour, minute}
use sounding.Samples.{zone, json, db, node, task, agent_status}

abbrev n1 : Text
n1 = bytes "n1"

abbrev reported : Db
reported = (upsert_node json n1 (bytes "new") [] db).1

old_node : node_of n1 db ≡ some (node n1)
unfolding same bytes
old_node = refl

old_task : task_named n1 (bytes "dns") db ≡ some (task 1 n1 (bytes "dns"))
unfolding same bytes same_pair
old_task = refl

n2-ne-n1 : bytes "n2" ≢ n1
unfolding bytes
n2-ne-n1 h = ground arith

upsert_node-keeps_operator_fields_example :
    (new : Client) × (node_of n1 reported ≡ some new)
    × SameOperatorFields new (node n1)
    × (new.name ≡ bytes "new")
upsert_node-keeps_operator_fields_example =
    upsert_node-keeps_operator_fields json n1 (bytes "new") [] db refl (node n1) old_node

no_cores : is_positive (parse_os_info json []).cpu_cores ≡ false
unfolding parse_os_info lookup
no_cores = refl

upsert_node-resets_cores_example :
    (new : Client) × (node_of n1 reported ≡ some new) × (new.cpu_cores ≡ float 1)
upsert_node-resets_cores_example =
    upsert_node-resets_cores json n1 (bytes "new") [] db refl (node n1) old_node no_cores

upsert_probe_task-keeps_interval_example :
    task_named n1
      (bytes "dns")
      (upsert_probe_task n1 (bytes "8.8.8.8") (bytes "dns") (bytes "tcp") (float 60) true db).1
    ≡ (if same_pair (n1, bytes "dns") (n1, bytes "dns")
        then some (record (task 1 n1 (bytes "dns")) {
          target = bytes "8.8.8.8";
          type = bytes "tcp";
          enabled = 1;
        })
        else task_named n1 (bytes "dns") db)
upsert_probe_task-keeps_interval_example =
    upsert_probe_task-keeps_interval n1 (bytes "8.8.8.8") (bytes "dns") (bytes "tcp") (float 60)
      true db refl n1 (bytes "dns") (task 1 n1 (bytes "dns")) old_task

abbrev failing : Db
failing = record db { faults = none ∷ some (bytes "disk full") ∷ [] }

admin_delete_node-Deletion_example : Deletion n1 failing (admin_delete_node n1 failing)
admin_delete_node-Deletion_example = admin_delete_node-Deletion n1 failing

named : is_empty n1 ≡ false
unfolding bytes
named = refl

not_star : same n1 (bytes "*") ≡ false
unfolding bytes same
not_star = refl

own_task : any (λ t. same n1 t.client) db.probe_tasks ≡ true
unfolding bytes same
own_task = refl

-- Two statuses and two probes, one of each older than a day.
abbrev grown : Db
grown = record db {
  status_history =
      record { client = n1; time = 7 ∷ []; status = agent_status }
      ∷ record { client = n1; time = 90_000 ∷ []; status = agent_status }
      ∷ [];
}

abbrev eighth_day : Time
eighth_day = 8 * 24 * hour

purge-counts_example :
    (n : ℕ) × (db' : Db) × (purge zone eighth_day (pos 7) grown ≡ (ok n, db'))
    × (rows grown ≡ n + rows db')
    × IsPurged
        (λ (r : StatusRow). r.time)
        (retention_cutoff zone eighth_day (pos 7))
        grown.status_history
        db'.status_history
    × IsPurged
        (λ (r : PingRecord). r.time)
        (retention_cutoff zone eighth_day (pos 7))
        grown.probe_records
        db'.probe_records
purge-counts_example = purge-counts zone eighth_day (pos 7) grown refl

get_or_create_secret-twice_example :
    (v : Text) × (created : Bool) × (db' : Db) × (get_or_create_secret (7 ∷ []) (bytes "jwt") db
      ≡ (ok (v, created), db'))
    × (get_or_create_secret (8 ∷ []) (bytes "jwt") db' ≡ (ok (v, false), db'))
get_or_create_secret-twice_example =
    get_or_create_secret-twice (7 ∷ []) (8 ∷ []) (bytes "jwt") db refl (cons-ne-nil 7 [])

-- A node that reported a minute ago.
abbrev stale : Db
stale = record db {
  status_history = record { client = n1; time = zone.format_time 0; status = agent_status } ∷ [];
}

alert_snapshots-offline_example :
    (snaps : List Snapshot) × (alert_snapshots zone minute stale ≡ (ok snaps, stale))
    × (any (says_offline n1) (snapshots_events snaps)
        ≡ last_passes (λ r. not (is_online zone minute r.time)) (last_of n1 stale.status_history))
alert_snapshots-offline_example = alert_snapshots-offline zone minute n1 stale refl

stale_offline :
    last_passes (λ r. not (is_online zone minute r.time)) (last_of n1 stale.status_history) ≡ true
unfolding is_online same bytes
stale_offline = refl

seed_probe_tasks-IsSeeded_example :
    (new : Db) × (seed_probe_tasks db ≡ (ok tt, new))
    × KeepsRows task_key db.probe_tasks new.probe_tasks
    × All (IsSeeded new.probe_tasks) default_probes
    × (again : Db) × (seed_probe_tasks new ≡ (ok tt, again))
    × (again.probe_tasks ≡ new.probe_tasks)
seed_probe_tasks-IsSeeded_example = seed_probe_tasks-IsSeeded db refl

-- The table of nodes before swap and kernel were reported.
abbrev old_tables : Tables
old_tables = (bytes "nodes", bytes "uuid" ∷ bytes "name" ∷ []) ∷ []

open_store-IsExtended_example :
    (new : Tables) × (open_store (record { tables = old_tables; faults = [] })
      ≡ (ok tt, record { tables = new; faults = [] }))
    × IsExtended old_tables new
    × All (λ c. has_column c.0 c.1 new ≡ true) added_columns
    × (open_store (record { tables = new; faults = [] })
        ≡ (ok tt, record { tables = new; faults = [] }))
open_store-IsExtended_example = open_store-IsExtended old_tables
