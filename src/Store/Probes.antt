-- ===== src/Store/Probes.antt =====
-- internal/store/adapters.go: probe tasks and the clients that are probed.
use sounding.Prelude.{
  ℕ, ◌+◌, Bool, ◌||◌, not, List, [], ◌∷◌, ◌++◌, map, Text, keep, any, bytes, same, is_empty,
  or_else, if◌then◌else◌, Float, float, pos_part, ◌*◌, is_positive, sort_by, leb_text, leb, ◌==◌,
}
use sounding.Prelude.Table.{upsert, delete}
use sounding.Contract.{AdminProbe}
use sounding.Clock.{Duration}
use sounding.Store.Db.{Db, M, statement, query, exec, task_key, TaskRow}

-- internal/probe/types.go: `Task`. The interval is a float64's number of seconds, as nanoseconds.
pub record Task : Type 0 where
  pub id : ℕ
  pub target : Text
  pub type : Text
  pub name : Text
  pub interval : Duration
  pub enabled : Bool

-- `time.Duration(intervalSec * float64(time.Second))`; a number that is not positive gives no
-- positive duration, which the scheduler replaces.
unfoldable pub interval_of : Float → Duration
interval_of v = pos_part v * 1_000_000

unfoldable pub task_of : TaskRow → Task
unfolding interval_of
task_of t = record {
  id = t.id;
  target = t.target;
  type = t.type;
  name = t.name;
  interval = interval_of t.interval_sec;
  enabled = t.enabled == 1;
}

-- `client = '*' OR client = ?`
unfoldable pub is_task_of : Text → TaskRow → Bool
is_task_of client t = same t.client (bytes "*") || same t.client client

unfoldable pub leb_id : TaskRow → TaskRow → Bool
leb_id t u = leb t.id u.id

unfoldable pub probe_tasks : Text → M (List Task)
unfolding statement is_task_of leb_id task_of
probe_tasks client =
    query λ db. map task_of (sort_by leb_id (keep (is_task_of client) db.probe_tasks))

-- Each text once, in order: UNION … ORDER BY 1.
unfoldable pub distinct : List Text → List Text
distinct [] = []
distinct (s ∷ ss) = if any (same s) ss then distinct ss else s ∷ distinct ss

unfoldable pub client_list : Db → List Text
unfolding distinct
client_list db =
    keep (λ c. not (is_empty c))
      (sort_by leb_text (
        distinct (
          map (λ t. t.client) (keep (λ t. not (same t.client (bytes "*"))) db.probe_tasks)
          ++ map (λ c. c.uuid) db.nodes)))

unfoldable pub probe_clients : M (List Text)
unfolding statement
probe_clients = query client_list

-- A row with the next id, which every INSERT uses up.
unfoldable pub task_row : ℕ → Text → Text → Text → Text → Float → Bool → TaskRow
task_row id client target name typ interval_sec enabled = record {
  id = id;
  client = client;
  target = target;
  type = typ;
  name = name;
  interval_sec = interval_sec;
  enabled = if enabled then 1 else 0;
}

-- The agent's path: on a conflict the interval stays.
unfoldable pub upsert_probe_task : Text → Text → Text → Text → Float → Bool → M (Unit {0})
unfolding statement task_row
upsert_probe_task client target name typ interval_sec enabled = exec λ db.
    let new = task_row db.next_id client target name typ interval_sec enabled in
    record db {
      next_id = db.next_id + 1;
      probe_tasks =
          upsert task_key
            (λ old. record old { target = new.target; type = new.type; enabled = new.enabled }) new
            db.probe_tasks;
    }

-- The administrator's path.
unfoldable pub admin_upsert_probe_interval : Text → Text → Text → Text → Float → Bool → M (Unit {0})
unfolding statement task_row
admin_upsert_probe_interval client target name typ interval_sec enabled = exec λ db.
    let new =
      task_row db.next_id client target name (or_else typ (bytes "icmp"))
        (if is_positive interval_sec then interval_sec else float 60) enabled in
    record db {
      next_id = db.next_id + 1;
      probe_tasks =
          upsert task_key
            (λ old. record old {
              target = new.target;
              type = new.type;
              interval_sec = new.interval_sec;
              enabled = new.enabled;
            })
            new db.probe_tasks;
    }

unfoldable pub admin_upsert_probe : Text → Text → Text → Text → Bool → M (Unit {0})
unfolding admin_upsert_probe_interval
admin_upsert_probe client target name typ enabled =
    admin_upsert_probe_interval client target name typ (float 60) enabled

-- `ORDER BY client, id`
leb_client_id : TaskRow → TaskRow → Bool
leb_client_id t u = if same t.client u.client then leb t.id u.id else leb_text t.client u.client

unfoldable pub admin_probe_of : TaskRow → AdminProbe
admin_probe_of t = record {
  id = t.id;
  client = t.client;
  target = t.target;
  name = t.name;
  type = t.type;
  interval_sec = t.interval_sec;
  enabled = t.enabled == 1;
}

unfoldable pub admin_probe_tasks : M (List AdminProbe)
unfolding statement leb_client_id admin_probe_of
admin_probe_tasks = query λ db. map admin_probe_of (sort_by leb_client_id db.probe_tasks)

unfoldable pub admin_delete_probe : Text → Text → M (Unit {0})
unfolding statement
admin_delete_probe client name =
    exec λ db. record db { probe_tasks = delete task_key (client, name) db.probe_tasks }

unfoldable pub admin_probe_task_names : Text → M (List Text)
unfolding statement
admin_probe_task_names client =
    query λ db. map (λ t. t.name) (keep (λ t. same t.client client) db.probe_tasks)
