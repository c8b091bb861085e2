-- ===== src/Rpc/Records.antt =====
-- internal/api/rpc_komari.go: the methods that answer with records of the histories.
use sounding.Prelude.{
  ℕ, Option, none, some, List, Text, bytes, same, is_empty, or_else, length, if◌then◌else◌, ℤ, pos,
  int_or, div_float, group, get_elem?,
}
use sounding.Strings.{to_lower}
use sounding.Json.{Value}
use sounding.Decimal.{atoi}
use sounding.Store.Db.{M, ◌>>=◌, done}
use sounding.Store.Records.{records_since, probe_records_since, recent_status}
use sounding.Rpc.Types.{Handler, Decoders, Reply, RecentParams, RecordParams, PingRecordParams}
use sounding.Rpc.Tasks.{by_client, hours_or, or_nothing, build_ping_tasks, basic_info}

-- `anyToInt`; no value that encoding/json decodes is an int.
unfoldable pub any_to_int : Value → ℤ
any_to_int (Value.number f) = div_float f 1000
any_to_int (Value.text s) = elim (atoi s) [ none ↦ pos 0 | some n ↦ n ]
any_to_int Value.null = pos 0
any_to_int Value.other = pos 0

-- An element of an array of parameters, if there is one that decodes.
unfoldable pub element : {A : Type 0} → (Text → Option A) → List Text → ℕ → A → A
element decode arr i given = elim (get_elem? arr i) [
  | none ↦ given
  | some raw ↦ elim (decode raw) [ none ↦ given | some a ↦ a ]
]

-- The parameters as an object, or else as an array.
unfoldable pub recent_params : Decoders → Text → RecentParams
unfolding element
recent_params d params =
    let (p, fine) = d.recent params in
    if fine then p else elim (d.array params) [
      | none ↦ p
      | some arr ↦ record p {
        uuid = element d.text arr 0 p.uuid;
        limit = element d.int arr 1 p.limit;
      }
    ]

-- `rpcNodeRecentStatus`
unfoldable pub rpc_node_recent_status : Handler → Text → M Reply
unfolding recent_params
rpc_node_recent_status h params = do
  let p = recent_params h.decoders params
  records ← recent_status (or_else p.uuid p.client) (int_or p.limit 150)
  done (Reply.recent (length records) records)

-- What getRecords and getPublicPingRecords answer of the probes.
unfoldable pub ping_reply : Handler → Text → ℤ → ℕ → ℕ → M Reply
unfolding or_nothing
ping_reply h client task_id hours limit = do
  records ← probe_records_since h.zone (h.read_at 0) client task_id (pos hours) (pos limit)
  tasks ← or_nothing (build_ping_tasks h.zone (h.read_at 1) client hours)
  done (Reply.ping_records (length records) records tasks (basic_info tasks))

-- The branch of the statuses: without a client they are grouped by it.
unfoldable pub load_reply : Handler → Text → ℕ → ℕ → Text → M Reply
load_reply h client hours limit load_type = do
  records ← records_since h.zone (h.read_at 0) client (pos hours) (pos limit)
  done (
      if is_empty client
      then Reply.grouped_records (group by_client records) load_type
      else Reply.load_records records load_type)

-- `rpcGetRecords`
unfoldable pub rpc_get_records : Handler → RecordParams → M Reply
unfolding hours_or ping_reply load_reply
rpc_get_records h p =
    let client = or_else p.uuid p.client in
    let hours = hours_or p.hours 1 in
    let limit = int_or p.max_count (int_or p.max_count_snake 1000) in
    if same (to_lower p.type) (bytes "ping")
    then ping_reply h client p.task_id hours limit
    else load_reply h client hours limit p.load_type

-- `rpcPingRecords`
unfoldable pub rpc_ping_records : Handler → PingRecordParams → M Reply
unfolding hours_or ping_reply any_to_int
rpc_ping_records h p =
    ping_reply h p.uuid (any_to_int p.task_id) (hours_or p.hours 1) (int_or p.max_count 5000)
