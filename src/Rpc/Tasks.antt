-- ===== src/Rpc/Tasks.antt =====
-- internal/api/rpc_komari.go: the summaries of the probe tasks, in buildPingTasks and
-- rpcPingMetricStats.
use sounding.Prelude.{
  ℕ, zero, suc, ◌-◌, ◌/◌, Bool, true, false, ◌&&◌, not, List, [], ◌∷◌, map, Text, keep, bytes, same,
  same_iff, is_empty, or_else, length, if◌then◌else◌, ==_iff, ◌==◌, Float, float, pos, negsuc,
  sort_by, leb_text, group, rows_of, ok, err,
}
use sounding.Prelude.Table.{Key}
use sounding.Contract.{PingRecord, AdminProbe, StatusRecord}
use sounding.Arithmetic.{exact, over}
use sounding.Clock.{Time, Zone, hours_before}
use sounding.Decimal.{decimal}
use sounding.Stats.{successes, loss_percent, spread}
use sounding.Store.Db.{M, ◌>>=◌, done}
use sounding.Store.Probes.{admin_probe_tasks, distinct}
use sounding.Store.Records.{probe_records_since}
use sounding.Rpc.Types.{Handler, PingTaskInfo, BasicInfo, Reply, StatsParams, PingMetricTaskStats}

-- The keys of `byTask` and of `grouped`.
abbrev pub by_task : Key PingRecord ℕ
by_task = record { key = λ r. r.task_id; eqb = ◌==◌; eqb_iff = ==_iff }

abbrev pub by_client : Key StatusRecord Text
by_client = record { key = λ r. r.client; eqb = same; eqb_iff = same_iff }

-- `intOr`, cut to an integer. The number is one that an int holds.
unfoldable pub hours_or : Float → ℕ → ℕ
hours_or (pos zero) d = d
hours_or (pos (suc n)) d = suc n / 1000
hours_or (negsuc n) d = d

-- The instant that a reply gives as its start.
unfoldable pub start_text : Zone → Time → ℕ → Text
unfolding hours_before
start_text z now hours = hours_before z now hours

-- The value of the last record, or zero.
unfoldable pub latest_of : Float → List PingRecord → Float
latest_of v [] = v
latest_of v (r ∷ rs) = latest_of r.value rs

unfoldable pub valid_values : List PingRecord → List Float
unfolding successes
valid_values recs = successes (map (λ r. r.value) recs)

-- The tasks that count for a client; all of them without one.
unfoldable pub is_shown : Text → AdminProbe → Bool
is_shown client t =
    not (not (is_empty client) && not (same t.client (bytes "*")) && not (same t.client client))

-- The body of the loop over the tasks, for the records of the task.
unfoldable pub task_info : AdminProbe → List PingRecord → PingTaskInfo
unfolding valid_values latest_of loss_percent
task_info t recs =
    let total = length recs in
    let vals = valid_values recs in
    let s = spread vals in
    record {
      id = t.id;
      weight = pos 0;
      name = t.name;
      interval = t.interval_sec;
      loss = if total == 0 then exact (pos 0) else loss_percent (total - length vals) total;
      type = t.type;
      clients = sort_by leb_text (distinct (map (λ r. r.client) recs));
      min = s.min;
      max = s.max;
      avg = s.avg;
      latest = latest_of (pos 0) recs;
      total = total;
      valid = length vals;
      p50 = s.p50;
      p99 = s.p99;
      stddev = s.stddev;
      ratio = s.ratio;
      loss_approximate = true;
    }

-- The loop over the tasks.
unfoldable pub infos_of : Text → List AdminProbe → List PingRecord → List PingTaskInfo
unfolding is_shown task_info
infos_of client tasks records =
    map (λ t. task_info t (rows_of by_task t.id (group by_task records)))
      (keep (is_shown client) tasks)

unfoldable pub build_ping_tasks : Zone → Time → Text → ℕ → M (List PingTaskInfo)
unfolding infos_of
build_ping_tasks z now client hours = do
  tasks ← admin_probe_tasks
  records ← probe_records_since z now client (pos 0) (pos hours) (pos 20_000)
  done (infos_of client tasks records)

-- `tasks, _ := buildPingTasks(…)` and `tasks, _ := ks.AdminProbeTasks()`: an error leaves no tasks.
unfoldable pub or_nothing : {A : Type 0} → M (List A) → M (List A)
or_nothing m db = let (r, db') = m db in (ok (elim r [ ok xs ↦ xs | err e ↦ [] ]), db')

unfoldable pub basic_info : List PingTaskInfo → List BasicInfo
basic_info tasks =
    map (λ t. record { client = t.name; loss = t.loss; min = t.min; max = t.max }) tasks

unfoldable pub rpc_ping_tasks : Handler → M Reply
unfolding build_ping_tasks
rpc_ping_tasks h = do tasks ← build_ping_tasks h.zone (h.read_at 0) [] 24; done (Reply.tasks tasks)

-- `nameByID` and `typeByID`: of two tasks with one id the later one counts.
unfoldable pub text_of : (AdminProbe → Text) → ℕ → Text → List AdminProbe → Text
text_of f id s [] = s
text_of f id s (t ∷ ts) = text_of f id (if t.id == id then f t else s) ts

-- The body of the loop over the tasks with records; there is at least one record.
unfoldable pub task_stats : Text → List AdminProbe → ℕ → List PingRecord → PingMetricTaskStats
unfolding valid_values latest_of text_of
task_stats entity tasks id recs =
    let total = length recs in
    let vals = valid_values recs in
    let s = spread vals in
    let name = text_of (λ t. t.name) id [] tasks in
    record {
      entity_id = entity;
      task_id = decimal id;
      name = name;
      type = text_of (λ t. t.type) id [] tasks;
      interval = pos 0;
      tags = (id, name);
      total = total;
      valid = length vals;
      loss =
          if total == 0
          then exact (pos 0)
          else over (exact (float (total - length vals))) (exact (float total));
      loss_approximate = false;
      min = s.min;
      max = s.max;
      avg = s.avg;
      latest = latest_of (pos 0) recs;
      p50 = s.p50;
      p99 = s.p99;
      stddev = s.stddev;
      ratio = s.ratio;
    }

-- The reply once the records and tasks are known.
unfoldable pub stats_reply : Handler → Text → ℕ → List PingRecord → List AdminProbe → Reply
unfolding start_text task_stats
stats_reply h entity hours records tasks =
    let stats = map (λ (id, recs). task_stats entity tasks id recs) (group by_task records) in
    Reply.stats (record {
      start = start_text h.zone h.now hours;
      end = h.zone.format_time h.now;
      interval_seconds = 60;
      stats = stats;
      count = length stats;
    })

-- `rpcPingMetricStats`. The method reads no task's id of its parameters.
unfoldable pub rpc_ping_metric_stats : Handler → StatsParams → M Reply
unfolding hours_or stats_reply or_nothing
rpc_ping_metric_stats h p = do
  let entity = or_else p.entity_id p.uuid
  let hours = hours_or p.hours 1
  records ← probe_records_since h.zone (h.read_at 0) entity (pos 0) (pos hours) (pos 20_000)
  tasks ← or_nothing admin_probe_tasks
  done (stats_reply h entity hours records tasks)
