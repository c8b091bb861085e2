-- ===== src/Rpc/Metrics.antt =====
-- internal/api/rpc_komari.go: the metrics, as series of points.
use sounding.Prelude.{
  ℕ, ◌*◌, Bool, false, ◌||◌, not, Option, none, some, List, [], ◌∷◌, ◌++◌, map, Text, keep, any,
  bytes, same, or_else, length, if◌then◌else◌, Float, float, pos, int_or, is_negative, lookup,
  group,
}
use sounding.Contract.{StatusRecord, PingRecord}
use sounding.Store.Db.{M, ◌>>=◌, done}
use sounding.Store.Records.{records_since, probe_records_since}
use sounding.Rpc.Types.{Handler, MetricDefinition, MetricPoint, MetricSeries, MetricParams, Reply}
use sounding.Rpc.Tasks.{by_task, hours_or, start_text, or_nothing}

abbrev pub latency_key : Text
latency_key = bytes "ping.latency_ms"

abbrev pub loss_key : Text
loss_key = bytes "ping.loss"

-- The rows of `metricDefinitions`: a name, a description and a unit.
unfoldable pub metric_rows : List (Text × (Text × Text))
metric_rows =
    (bytes "cpu.usage", (bytes "CPU 使用率", bytes "%"))
    ∷ (bytes "load.average", (bytes "1 分钟负载", bytes ""))
    ∷ (bytes "memory.used", (bytes "内存已用", bytes "bytes"))
    ∷ (bytes "memory.total", (bytes "内存总量", bytes "bytes"))
    ∷ (bytes "swap.used", (bytes "Swap 已用", bytes "bytes"))
    ∷ (bytes "swap.total", (bytes "Swap 总量", bytes "bytes"))
    ∷ (bytes "temperature", (bytes "温度", bytes "°C"))
    ∷ (bytes "disk.used", (bytes "磁盘已用", bytes "bytes"))
    ∷ (bytes "disk.total", (bytes "磁盘总量", bytes "bytes"))
    ∷ (bytes "net.in.rate", (bytes "下行速率", bytes "bytes/s"))
    ∷ (bytes "net.out.rate", (bytes "上行速率", bytes "bytes/s"))
    ∷ (bytes "net.total.down", (bytes "累计下行", bytes "bytes"))
    ∷ (bytes "net.total.up", (bytes "累计上行", bytes "bytes"))
    ∷ (bytes "traffic.down", (bytes "流量下行", bytes "bytes"))
    ∷ (bytes "traffic.up", (bytes "流量上行", bytes "bytes"))
    ∷ (bytes "process.count", (bytes "进程数", bytes ""))
    ∷ (bytes "connections.tcp", (bytes "TCP 连接数", bytes ""))
    ∷ (bytes "connections.udp", (bytes "UDP 连接数", bytes ""))
    ∷ (bytes "ping.latency_ms", (bytes "探针延迟", bytes "ms"))
    ∷ (bytes "ping.loss", (bytes "探针丢包", bytes "ratio"))
    ∷ []

unfoldable pub metric_definitions : List MetricDefinition
unfolding metric_rows
metric_definitions =
    map {B = MetricDefinition}
      (λ (name, (desc, unit)). record {
        name = name;
        description = desc;
        type = bytes "gauge";
        unit = unit;
        retention_days = 30;
        metadata = [];
      })
      metric_rows

unfoldable pub selectors : List (Text × (StatusRecord → Float))
selectors =
    (bytes "cpu.usage", λ r. r.cpu)
    ∷ (bytes "load.average", λ r. r.load)
    ∷ (bytes "memory.used", λ r. r.ram)
    ∷ (bytes "memory.total", λ r. r.ram_total)
    ∷ (bytes "swap.used", λ r. r.swap)
    ∷ (bytes "swap.total", λ r. r.swap_total)
    ∷ (bytes "temperature", λ r. r.temp)
    ∷ (bytes "disk.used", λ r. r.disk)
    ∷ (bytes "disk.total", λ r. r.disk_total)
    ∷ (bytes "net.in.rate", λ r. r.net_in)
    ∷ (bytes "net.out.rate", λ r. r.net_out)
    ∷ (bytes "net.total.down", λ r. r.net_total_down)
    ∷ (bytes "traffic.down", λ r. r.net_total_down)
    ∷ (bytes "net.total.up", λ r. r.net_total_up)
    ∷ (bytes "traffic.up", λ r. r.net_total_up)
    ∷ (bytes "process.count", λ r. r.process)
    ∷ (bytes "connections.tcp", λ r. r.connections)
    ∷ (bytes "connections.udp", λ r. r.connections_udp)
    ∷ []

-- `statusMetricSelector`
unfoldable pub status_metric_selector : Text → Option (StatusRecord → Float)
unfolding selectors
status_metric_selector key = lookup key selectors

unfoldable pub status_series :
    Text → Text → List StatusRecord → (StatusRecord → Float) → MetricSeries
status_series entity key records sel =
    let points =
      map {B = MetricPoint}
        (λ r. record { time = r.time; value = some (sel r); count = 0; tags = none }) records in
    record {
      metric_key = key;
      entity_id = entity;
      type = [];
      unit = [];
      tags = none;
      downsampled = false;
      count = length points;
      points = points;
    }

-- The loop over the keys: a key without a selector gives no series.
unfoldable pub status_series_of : Text → List StatusRecord → List Text → List MetricSeries
unfolding status_metric_selector status_series
status_series_of entity records [] = []
status_series_of entity records (key ∷ keys) =
    let rest = status_series_of entity records keys in
    elim (status_metric_selector key) [
      | none ↦ rest
      | some sel ↦ status_series entity key records sel ∷ rest
    ]

unfoldable pub ping_series : Text → Text → Text → ℕ → List MetricPoint → MetricSeries
ping_series entity key unit id points = record {
  metric_key = key;
  entity_id = entity;
  type = [];
  unit = unit;
  tags = some id;
  downsampled = false;
  count = length points;
  points = points;
}

-- A probe that failed has no latency.
unfoldable pub latency_series : Text → ℕ → List PingRecord → MetricSeries
unfolding ping_series
latency_series entity id recs = ping_series entity latency_key (bytes "ms") id (
    map {B = MetricPoint}
      (λ r. record { time = r.time; value = some r.value; count = 1; tags = some id })
      (keep (λ r. not (is_negative r.value)) recs))

unfoldable pub loss_of : PingRecord → Float
loss_of r = if is_negative r.value then float 1 else pos 0

unfoldable pub loss_series : Text → ℕ → List PingRecord → MetricSeries
unfolding ping_series loss_of
loss_series entity id recs = ping_series entity loss_key (bytes "ratio") id (
    map {B = MetricPoint}
      (λ r. record { time = r.time; value = some (loss_of r); count = 1; tags = some id }) recs)

-- The series of one task.
unfoldable pub task_series : Text → Bool → Bool → ℕ → List PingRecord → List MetricSeries
unfolding latency_series loss_series
task_series entity latency loss id recs =
    (if latency then latency_series entity id recs ∷ [] else [])
    ++ (if loss then loss_series entity id recs ∷ [] else [])

-- The loop over `byTask`.
unfoldable pub all_series : Text → Bool → Bool → List (ℕ × List PingRecord) → List MetricSeries
unfolding task_series
all_series entity latency loss [] = []
all_series entity latency loss ((id, recs) ∷ groups) =
    task_series entity latency loss id recs ++ all_series entity latency loss groups

unfoldable pub ping_metric_series : Text → List PingRecord → List Text → List MetricSeries
unfolding all_series
ping_metric_series entity records keys =
    let latency = any (same latency_key) keys in
    let loss = any (same loss_key) keys in
    if not (latency || loss) then [] else all_series entity latency loss (group by_task records)

-- The keys of a request: the older name of the field counts if the newer one is empty.
unfoldable pub keys_of : MetricParams → List Text
keys_of p = elim p.metric_keys [ [] ↦ p.metrics | k ∷ ks ↦ k ∷ ks ]

-- The records of the probes are asked for if a key needs them.
unfoldable pub wanted_pings : Handler → Text → ℕ → ℕ → List Text → M (List PingRecord)
unfolding or_nothing
wanted_pings h entity hours limit keys =
    if any (λ k. same latency_key k || same loss_key k) keys
    then or_nothing
        (probe_records_since h.zone (h.read_at 1) entity (pos 0) (pos hours) (pos (limit * 4)))
    else done []

unfoldable pub rpc_query_metrics : Handler → MetricParams → M Reply
unfolding hours_or keys_of wanted_pings start_text status_series_of ping_metric_series
rpc_query_metrics h p = do
  let entity = or_else p.entity_id p.uuid
  let hours = hours_or p.hours 1
  let limit = int_or p.max_points 500
  let keys = keys_of p
  records ← records_since h.zone (h.read_at 0) entity (pos hours) (pos limit)
  pings ← wanted_pings h entity hours limit keys
  let series = status_series_of entity records keys ++ ping_metric_series entity pings keys
  done (
      Reply.metrics (record {
        start = start_text h.zone h.now hours;
        end = h.zone.format_time h.now;
        series = series;
        count = length series;
      }))
