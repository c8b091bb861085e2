-- ===== src/Rpc/Reads.antt =====
-- internal/api, rpc.go and rpc_komari.go: what the methods do to the tables, and when they fail.
use sounding.Clock.{Time}
use sounding.Prelude.{
  ℕ, refl, inl, inr, Bool-cases, List, [], Text, bytes, same, any, ◌||◌, length, ℤ, pos, or_else,
}
use sounding.Strings.{to_lower}
use sounding.Contract.{PingRecord, AdminProbe}
use sounding.Store.Db.{Db, M, ◌>>=◌, done, statement, query}
use sounding.Store.Nodes.{nodes}
use sounding.Store.Status.{latest_status}
use sounding.Store.Probes.{admin_probe_tasks}
use sounding.Store.Records.{recent_status, ping_records, records_since, probe_records_since}
use sounding.Store.Reads.{
  IsRead, FailsFirst, Succeeds, query-IsRead, query-FailsFirst, query-Succeeds, bind-IsRead,
  bind-FailsFirst, bind-Succeeds, done-Succeeds, latest_status-IsRead, latest_status-FailsFirst,
}
use sounding.Store.StatusLaws.{latest_status_lem}
use sounding.Rpc.Types.{Handler, Reply, RecordParams, PingRecordParams, MetricParams, StatsParams}
use sounding.Rpc.Tasks.{
  or_nothing, build_ping_tasks, infos_of, rpc_ping_tasks, rpc_ping_metric_stats, hours_or,
  stats_reply, basic_info,
}
use sounding.Rpc.Metrics.{rpc_query_metrics, wanted_pings, latency_key, loss_key}
use sounding.Rpc.Records.{
  rpc_node_recent_status, rpc_get_records, rpc_ping_records, ping_reply, load_reply,
}

-- A read of the store: it changes no table, fails if its first statement does, and works if all do.
pub record IsQuery {A : Type 0} (m : M A) : Type 0 where
  pub reads : IsRead m
  pub fails : FailsFirst m
  pub succeeds : Succeeds m

abbrev query-IsQuery : {A : Type 0} (f : Db → A) → IsQuery (query f)
query-IsQuery f = record {
  reads = query-IsRead f;
  fails = query-FailsFirst f;
  succeeds = query-Succeeds f;
}

abbrev bind-IsQuery :
    {A B : Type 0} (m : M A) (f : A → M B)
    → IsQuery m
    → ((a : A) → IsRead (f a))
    → ((a : A) → Succeeds (f a))
    → IsQuery (m >>= f)
bind-IsQuery m f p q r = record {
  reads = bind-IsRead f m p.reads q;
  fails = bind-FailsFirst f m p.fails;
  succeeds = bind-Succeeds f m p.succeeds r;
}

pub nodes-IsQuery : IsQuery nodes
unfolding nodes statement
nodes-IsQuery = query-IsQuery _

admin_probe_tasks-IsQuery : IsQuery admin_probe_tasks
unfolding admin_probe_tasks
admin_probe_tasks-IsQuery = query-IsQuery _

pub recent_status-IsQuery : (client : Text) (limit : ℕ) → IsQuery (recent_status client limit)
unfolding recent_status
recent_status-IsQuery client limit = query-IsQuery _

pub ping_records-IsQuery :
    (client : Text) (id : ℤ) (limit : ℕ) → IsQuery (ping_records client id limit)
unfolding ping_records
ping_records-IsQuery client id limit = query-IsQuery _

pub latest_status-IsQuery : (h : Handler) → IsQuery (latest_status h.zone h.now)
latest_status-IsQuery h = record {
  reads = latest_status-IsRead h.zone h.now;
  fails = latest_status-FailsFirst h.zone h.now;
  succeeds = latest_status_lem h.zone h.now;
}

-- A query whose result is only put into a reply.
pub then_done : {A B : Type 0} (m : M A) (f : A → B) → IsQuery m → IsQuery (m >>= λ a. done (f a))
then_done m f p = bind-IsQuery m (λ a. done (f a)) p (λ a db. refl) (λ a. done-Succeeds (f a))

or_nothing-Succeeds : {A : Type 0} (m : M (List A)) → IsQuery m → Succeeds (or_nothing m)
unfolding or_nothing
or_nothing-Succeeds m p db works = let (xs, e) = p.succeeds db works in (xs, rw e refl)

or_nothing-IsRead : {A : Type 0} (m : M (List A)) → IsQuery m → IsRead (or_nothing m)
unfolding or_nothing
or_nothing-IsRead m p = p.reads

or_nothing_then :
    {A B : Type 0} (m : M (List A)) (f : List A → B)
    → IsQuery m
    → IsRead (or_nothing m >>= λ xs. done (f xs)) × Succeeds (or_nothing m >>= λ xs. done (f xs))
or_nothing_then m f p = (
  bind-IsRead (λ xs. done (f xs)) (or_nothing m) (or_nothing-IsRead m p) λ xs db. refl,
  bind-Succeeds (λ xs. done (f xs)) (or_nothing m) (or_nothing-Succeeds m p)
      λ xs. done-Succeeds (f xs),
)

module _ (h : Handler) where
  pub since-IsQuery :
      (now : Time) (client : Text) (hours limit : ℤ)
      → IsQuery (records_since h.zone now client hours limit)
  unfolding records_since
  since-IsQuery now client hours limit = query-IsQuery _

  probes_since-IsQuery :
      (now : Time) (client : Text) (id hours limit : ℤ)
      → IsQuery (probe_records_since h.zone now client id hours limit)
  unfolding probe_records_since
  probes_since-IsQuery now client id hours limit = query-IsQuery _

  build_ping_tasks-IsQuery :
      (now : Time) (client : Text) (hours : ℕ) → IsQuery (build_ping_tasks h.zone now client hours)
  unfolding build_ping_tasks
  build_ping_tasks-IsQuery now client hours =
      let rest = λ (tasks : List AdminProbe).
        then_done _ (infos_of client tasks)
          (probes_since-IsQuery now client (pos 0) (pos hours) (pos 20_000)) in
      bind-IsQuery _ _ admin_probe_tasks-IsQuery (λ tasks. (rest tasks).reads)
        (λ tasks. (rest tasks).succeeds)

  pub ping_tasks-IsQuery : IsQuery (rpc_ping_tasks h)
  unfolding rpc_ping_tasks
  ping_tasks-IsQuery = then_done _ Reply.tasks (build_ping_tasks-IsQuery (h.read_at 0) [] 24)

  pub node_recent_status-IsQuery : (params : Text) → IsQuery (rpc_node_recent_status h params)
  unfolding rpc_node_recent_status
  node_recent_status-IsQuery params = then_done _ _ (recent_status-IsQuery _ _)

  ping_reply-IsQuery :
      (client : Text) (id : ℤ) (hours limit : ℕ) → IsQuery (ping_reply h client id hours limit)
  unfolding ping_reply
  ping_reply-IsQuery client id hours limit =
      let rest = λ (records : List PingRecord).
        or_nothing_then (build_ping_tasks h.zone (h.read_at 1) client hours)
          (λ tasks. Reply.ping_records (length records) records tasks (basic_info tasks))
          (build_ping_tasks-IsQuery (h.read_at 1) client hours) in
      bind-IsQuery _ _ (probes_since-IsQuery (h.read_at 0) client id (pos hours) (pos limit))
        (λ records. (rest records).0) (λ records. (rest records).1)

  load_reply-IsQuery :
      (client : Text) (hours limit : ℕ) (load_type : Text)
      → IsQuery (load_reply h client hours limit load_type)
  unfolding load_reply
  load_reply-IsQuery client hours limit load_type =
      then_done _ _ (since-IsQuery (h.read_at 0) client (pos hours) (pos limit))

  pub get_records-IsQuery : (p : RecordParams) → IsQuery (rpc_get_records h p)
  unfolding rpc_get_records
  get_records-IsQuery p = elim (Bool-cases (same (to_lower p.type) (bytes "ping"))) [
    | inl pings ↦ rw pings (ping_reply-IsQuery _ _ _ _)
    | inr load ↦ rw load (load_reply-IsQuery _ _ _ _)
  ]

  pub ping_records_of-IsQuery : (p : PingRecordParams) → IsQuery (rpc_ping_records h p)
  unfolding rpc_ping_records
  ping_records_of-IsQuery p = ping_reply-IsQuery _ _ _ _

  wanted_pings-IsRead :
      (entity : Text) (hours limit : ℕ) (keys : List Text)
      → IsRead (wanted_pings h entity hours limit keys)
  unfolding wanted_pings
  wanted_pings-IsRead entity hours limit keys =
      elim (Bool-cases (any (λ k. same latency_key k || same loss_key k) keys)) [
        | inl wanted ↦ rw wanted (or_nothing-IsRead _ (probes_since-IsQuery _ _ _ _ _))
        | inr none_wanted ↦ rw none_wanted λ db. refl
      ]

  wanted_pings-Succeeds :
      (entity : Text) (hours limit : ℕ) (keys : List Text)
      → Succeeds (wanted_pings h entity hours limit keys)
  unfolding wanted_pings
  wanted_pings-Succeeds entity hours limit keys =
      elim (Bool-cases (any (λ k. same latency_key k || same loss_key k) keys)) [
        | inl wanted ↦ rw wanted (or_nothing-Succeeds _ (probes_since-IsQuery _ _ _ _ _))
        | inr none_wanted ↦ rw none_wanted (done-Succeeds [])
      ]

  pub query_metrics-IsQuery : (p : MetricParams) → IsQuery (rpc_query_metrics h p)
  unfolding rpc_query_metrics
  query_metrics-IsQuery p =
      bind-IsQuery _ _ (since-IsQuery _ _ _ _)
        (λ records. bind-IsRead _ _ (wanted_pings-IsRead _ _ _ _) λ pings db. refl)
        (λ records. bind-Succeeds _ _ (wanted_pings-Succeeds _ _ _ _) λ pings. done-Succeeds _)

  pub ping_metric_stats-IsQuery : (p : StatsParams) → IsQuery (rpc_ping_metric_stats h p)
  unfolding rpc_ping_metric_stats
  ping_metric_stats-IsQuery p =
      let entity = or_else p.entity_id p.uuid in
      let hours = hours_or p.hours 1 in
      let rest = λ (records : List PingRecord).
        or_nothing_then admin_probe_tasks (stats_reply h entity hours records)
          admin_probe_tasks-IsQuery in
      bind-IsQuery _ _ (probes_since-IsQuery (h.read_at 0) entity (pos 0) (pos hours) (pos 20_000))
        (λ records. (rest records).0) (λ records. (rest records).1)
