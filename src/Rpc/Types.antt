-- ===== src/Rpc/Types.antt =====
-- internal/api, rpc.go and rpc_komari.go: requests, parameters and replies. The parameters of a method are
-- decoded by a parameter of the model; a field that json.Unmarshal does not fill is zero.
use sounding.Prelude.{ℕ, Bool, Option, List, Text, Float, ℤ}
use sounding.Arithmetic.{Computed}
use sounding.Json.{Value}
use sounding.Clock.{Time, Zone}
use sounding.Contract.{Client, NodeStatus, StatusRecord, PingRecord}

pub record PingTaskInfo : Type 0 where
  pub id : ℕ
  pub weight : Float
  pub name : Text
  pub interval : Float
  pub loss : Computed
  pub type : Text
  pub clients : List Text
  pub min : Float
  pub max : Float
  pub avg : Computed
  pub latest : Float
  pub total : ℕ
  pub valid : ℕ
  pub p50 : Float
  pub p99 : Float
  pub stddev : Computed
  pub ratio : Computed
  pub loss_approximate : Bool

pub record MetricDefinition : Type 0 where
  pub name : Text
  pub description : Text
  pub type : Text
  pub unit : Text
  pub retention_days : ℕ
  pub metadata : List (Text × Text)

-- The tags of a point and of a series are a task's id, or none.
pub record MetricPoint : Type 0 where
  pub time : Text
  pub value : Option Float
  pub count : ℕ
  pub tags : Option ℕ

pub record MetricSeries : Type 0 where
  pub metric_key : Text
  pub entity_id : Text
  pub type : Text
  pub unit : Text
  pub tags : Option ℕ
  pub downsampled : Bool
  pub count : ℕ
  pub points : List MetricPoint

pub record MetricQueryResponse : Type 0 where
  pub start : Text
  pub end : Text
  pub series : List MetricSeries
  pub count : ℕ

-- The tags are a task's id and name.
pub record PingMetricTaskStats : Type 0 where
  pub entity_id : Text
  pub task_id : Text
  pub name : Text
  pub type : Text
  pub interval : Float
  pub tags : ℕ × Text
  pub total : ℕ
  pub valid : ℕ
  pub loss : Computed
  pub loss_approximate : Bool
  pub min : Float
  pub max : Float
  pub avg : Computed
  pub latest : Float
  pub p50 : Float
  pub p99 : Float
  pub stddev : Computed
  pub ratio : Computed

pub record PingMetricStatsResponse : Type 0 where
  pub start : Text
  pub end : Text
  pub interval_seconds : ℕ
  pub stats : List PingMetricTaskStats
  pub count : ℕ

-- The values of a map of constants.
pub data Scalar : Type 0 where
  null : Scalar
  flag : Bool → Scalar
  number : Float → Scalar
  text : Text → Scalar
  no_items : Scalar

pub data Setting : Type 0 where
  plain : Scalar → Setting
  theme : List (Text × Scalar) → Setting

abbrev pub Settings : Type 0
Settings = List (Text × Setting)

-- An entry of `basicInfo`.
pub record BasicInfo : Type 0 where
  pub client : Text
  pub loss : Computed
  pub min : Float
  pub max : Float

-- The results of the methods.
pub data Reply : Type 0 where
  pong : Reply
  object : List (Text × Scalar) → Reply
  settings : Settings → Reply
  names : List Text → Reply
  no_help : Reply
  nodes : List Client → Reply
  statuses : List NodeStatus → Reply
  pings : List PingRecord → Reply
  definitions : List MetricDefinition → Reply
  recent : ℕ → List StatusRecord → Reply
  records : List StatusRecord → Reply
  load_records : List StatusRecord → Text → Reply
  grouped_records : List (Text × List StatusRecord) → Text → Reply
  uuid_records : ℕ → List StatusRecord → Text → Bool → Reply
  ping_records : ℕ → List PingRecord → List PingTaskInfo → List BasicInfo → Reply
  tasks : List PingTaskInfo → Reply
  metrics : MetricQueryResponse → Reply
  stats : PingMetricStatsResponse → Reply

pub record RpcRequest : Type 0 where
  pub jsonrpc : Text
  pub id : Text
  pub method : Text
  pub params : Text

pub record RpcError : Type 0 where
  pub code : ℤ
  pub message : Text

pub record RpcResponse : Type 0 where
  pub jsonrpc : Text
  pub id : Text
  pub result : Option Reply
  pub error : Option RpcError

pub record PingParams : Type 0 where
  pub client : Text
  pub task_id : ℤ
  pub limit : ℤ

pub record RecentParams : Type 0 where
  pub uuid : Text
  pub client : Text
  pub limit : ℤ

pub record RecordParams : Type 0 where
  pub type : Text
  pub uuid : Text
  pub client : Text
  pub hours : Float
  pub task_id : ℤ
  pub load_type : Text
  pub max_count : ℤ
  pub max_count_snake : ℤ

pub record PingRecordParams : Type 0 where
  pub uuid : Text
  pub task_id : Value
  pub hours : Float
  pub max_count : ℤ

pub record MetricParams : Type 0 where
  pub metric_keys : List Text
  pub metrics : List Text
  pub entity_id : Text
  pub uuid : Text
  pub hours : Float
  pub max_points : ℤ

pub record StatsParams : Type 0 where
  pub entity_id : Text
  pub uuid : Text
  pub task_id : Value
  pub task_ids : List Value
  pub hours : Float

-- `json.Unmarshal` for the types of the methods. `recent` says too whether there was no error.
pub record Decoders : Type 0 where
  pub request : Text → Option RpcRequest
  pub ping : Text → PingParams
  pub recent : Text → RecentParams × Bool
  pub array : Text → Option (List Text)
  pub text : Text → Option Text
  pub int : Text → Option ℤ
  pub record_params : Text → RecordParams
  pub ping_records : Text → PingRecordParams
  pub metrics : Text → MetricParams
  pub stats : Text → StatsParams

-- The handler, and what it reads of the clock and of encoding/json.
pub record Handler : Type 0 where
  pub public_settings : Option Settings
  pub version : Text
  pub zone : Zone
  pub now : Time
  pub read_at : ℕ → Time
  pub decoders : Decoders
