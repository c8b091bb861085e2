-- ===== src/Rpc/Dispatch.antt =====
-- internal/api, rpc.go and rpc_komari.go: which method a request calls, and what it answers. A method
-- whose second result is false fails here; the handler drops the error's text.
use sounding.Prelude.{
  false, Option, none, some, List, [], ◌∷◌, ◌++◌, Text, bytes, or_else, length, ℤ, float, negsuc,
  int_or, lookup, Result, ok, err, pos,
}
use sounding.Strings.{after_last}
use sounding.Store.Db.{Db, M, ◌>>=◌, done}
use sounding.Store.Nodes.{nodes}
use sounding.Store.Status.{latest_status}
use sounding.Store.Records.{recent_status, ping_records, records_since}
use sounding.Rpc.Types.{
  Handler, Reply, RpcRequest, RpcResponse, Settings, Scalar, flag, number, text, no_items,
}
use sounding.Rpc.Settings.{public_settings}
use sounding.Rpc.Tasks.{hours_or, rpc_ping_tasks, rpc_ping_metric_stats}
use sounding.Rpc.Metrics.{metric_definitions, rpc_query_metrics}
use sounding.Rpc.Records.{rpc_node_recent_status, rpc_get_records, rpc_ping_records}

-- The cases of `dispatch` and of `dispatchKomari`.
pub data Method : Type 0 where
  ping : Method
  get_client : Method
  get_nodes : Method
  get_nodes_latest_status : Method
  get_ping_records : Method

pub data KomariMethod : Type 0 where
  get_methods : KomariMethod
  get_help : KomariMethod
  get_version : KomariMethod
  get_public_info : KomariMethod
  get_public_me : KomariMethod
  record_visitor_event : KomariMethod
  get_logs : KomariMethod
  edit_settings : KomariMethod
  list_metric_definitions : KomariMethod
  get_node_recent_status : KomariMethod
  get_records : KomariMethod
  get_public_nodes_information : KomariMethod
  get_public_client_recent_records : KomariMethod
  get_public_records_by_uuid : KomariMethod
  get_public_ping_records : KomariMethod
  get_public_ping_tasks : KomariMethod
  query_metrics : KomariMethod
  get_ping_metric_stats : KomariMethod

-- The labels of the cases.
unfoldable pub methods : List (Text × Method)
methods =
    (bytes "ping", Method.ping)
    ∷ (bytes "getClient", Method.get_client)
    ∷ (bytes "getNodes", Method.get_nodes)
    ∷ (bytes "getNodesLatestStatus", Method.get_nodes_latest_status)
    ∷ (bytes "getPingRecords", Method.get_ping_records)
    ∷ []

unfoldable pub komari_methods : List (Text × KomariMethod)
komari_methods =
    (bytes "getMethods", KomariMethod.get_methods)
    ∷ (bytes "getHelp", KomariMethod.get_help)
    ∷ (bytes "getVersion", KomariMethod.get_version)
    ∷ (bytes "getBackendVersion", KomariMethod.get_version)
    ∷ (bytes "getPublicInfo", KomariMethod.get_public_info)
    ∷ (bytes "getPublicSettings", KomariMethod.get_public_info)
    ∷ (bytes "getPublicMe", KomariMethod.get_public_me)
    ∷ (bytes "getMe", KomariMethod.get_public_me)
    ∷ (bytes "recordVisitorEvent", KomariMethod.record_visitor_event)
    ∷ (bytes "getLogs", KomariMethod.get_logs)
    ∷ (bytes "editSettings", KomariMethod.edit_settings)
    ∷ (bytes "listMetricDefinitions", KomariMethod.list_metric_definitions)
    ∷ (bytes "getNodeRecentStatus", KomariMethod.get_node_recent_status)
    ∷ (bytes "getRecords", KomariMethod.get_records)
    ∷ (bytes "getPublicNodesInformation", KomariMethod.get_public_nodes_information)
    ∷ (bytes "getPublicClientRecentRecords", KomariMethod.get_public_client_recent_records)
    ∷ (bytes "getPublicRecordsByUUID", KomariMethod.get_public_records_by_uuid)
    ∷ (bytes "getPublicPingRecords", KomariMethod.get_public_ping_records)
    ∷ (bytes "getPublicPingTasks", KomariMethod.get_public_ping_tasks)
    ∷ (bytes "queryMetrics", KomariMethod.query_metrics)
    ∷ (bytes "getPingMetricStats", KomariMethod.get_ping_metric_stats)
    ∷ []

-- What getMethods lists.
unfoldable pub listed_methods : List Text
listed_methods =
    bytes "getMethods"
    ∷ bytes "getHelp"
    ∷ bytes "getVersion"
    ∷ bytes "getClient"
    ∷ bytes "getNodes"
    ∷ bytes "getNodesLatestStatus"
    ∷ bytes "getNodeRecentStatus"
    ∷ bytes "getRecords"
    ∷ bytes "getPublicInfo"
    ∷ bytes "getPublicSettings"
    ∷ bytes "getBackendVersion"
    ∷ bytes "getPublicNodesInformation"
    ∷ bytes "getPublicClientRecentRecords"
    ∷ bytes "getPublicRecordsByUUID"
    ∷ bytes "getPublicPingRecords"
    ∷ bytes "getPublicPingTasks"
    ∷ bytes "listMetricDefinitions"
    ∷ bytes "queryMetrics"
    ∷ bytes "getPingMetricStats"
    ∷ bytes "getPublicMe"
    ∷ bytes "recordVisitorEvent"
    ∷ bytes "getLogs"
    ∷ bytes "editSettings"
    ∷ []

-- What follows the last colon, or else the last dot.
unfoldable pub method_of : Text → Text
unfolding after_last
method_of name = elim (after_last b':' name) [
  | some m ↦ m
  | none ↦ elim (after_last b'.' name) [ some m ↦ m | none ↦ name ]
]

unfoldable pub public_info : Handler → Settings
public_info h = elim h.public_settings [ some s ↦ s | none ↦ public_settings ]

-- The map of `getClient`.
unfoldable pub client_info : List (Text × Scalar)
client_info =
    (bytes "ip", text [])
    ∷ (bytes "country", text (bytes "CN"))
    ∷ (bytes "country_code", text (bytes "CN"))
    ∷ (bytes "asn", text [])
    ∷ (bytes "isp", text [])
    ∷ []

-- The cases of `dispatch` but the default.
unfoldable pub call : Handler → Method → Text → M Reply
unfolding client_info
call h Method.ping params = done Reply.pong
call h Method.get_client params = done (Reply.object client_info)
call h Method.get_nodes params = do ns ← nodes; done (Reply.nodes ns)
call h Method.get_nodes_latest_status params = do
  statuses ← latest_status h.zone h.now
  done (Reply.statuses statuses)
call h Method.get_ping_records params = do
  let p = h.decoders.ping params
  records ← ping_records p.client p.task_id (int_or p.limit 150)
  done (Reply.pings records)

-- `dispatchKomari`. The parameters of the two methods of recent and of a node's records are fields of those
-- of getRecords.
unfoldable pub call_komari : Handler → KomariMethod → Text → M Reply
unfolding public_info hours_or
call_komari h KomariMethod.get_methods params = done (Reply.names listed_methods)
call_komari h KomariMethod.get_help params = done Reply.no_help
call_komari h KomariMethod.get_version params =
    done (Reply.object ((bytes "version", text (or_else h.version (bytes "dev"))) ∷ []))
call_komari h KomariMethod.get_public_info params = done (Reply.settings (public_info h))
call_komari h KomariMethod.get_public_me params =
    done (Reply.object ((bytes "logged_in", flag false) ∷ []))
call_komari h KomariMethod.record_visitor_event params =
    done (Reply.object ((bytes "status", text (bytes "disabled")) ∷ []))
call_komari h KomariMethod.get_logs params =
    done (Reply.object ((bytes "logs", no_items) ∷ (bytes "total", number (float 0)) ∷ []))
call_komari h KomariMethod.edit_settings params =
    done (Reply.object ((bytes "status", text (bytes "success")) ∷ []))
call_komari h KomariMethod.list_metric_definitions params =
    done (Reply.definitions metric_definitions)
call_komari h KomariMethod.get_node_recent_status params = rpc_node_recent_status h params
call_komari h KomariMethod.get_records params = rpc_get_records h (h.decoders.record_params params)
call_komari h KomariMethod.get_public_nodes_information params = do
  ns ← nodes
  done (Reply.nodes ns)
call_komari h KomariMethod.get_public_client_recent_records params = do
  records ← recent_status (h.decoders.record_params params).uuid 150
  done (Reply.records records)
call_komari h KomariMethod.get_public_records_by_uuid params = do
  let p = h.decoders.record_params params
  records ← records_since h.zone (h.read_at 0) p.uuid (pos (hours_or p.hours 1)) (pos 5000)
  done (Reply.uuid_records (length records) records p.load_type false)
call_komari h KomariMethod.get_public_ping_records params =
    rpc_ping_records h (h.decoders.ping_records params)
call_komari h KomariMethod.get_public_ping_tasks params = rpc_ping_tasks h
call_komari h KomariMethod.query_metrics params = rpc_query_metrics h (h.decoders.metrics params)
call_komari h KomariMethod.get_ping_metric_stats params =
    rpc_ping_metric_stats h (h.decoders.stats params)

unfoldable pub replied : RpcRequest → Reply → RpcResponse
replied req r = record { jsonrpc = bytes "2.0"; id = req.id; result = some r; error = none }

abbrev pub failed : Text → ℤ → Text → RpcResponse
failed id code message = record {
  jsonrpc = bytes "2.0";
  id = id;
  result = none;
  error = some (record { code = code; message = message });
}

-- -32000, -32601 and -32700
abbrev pub store_failed : ℤ
store_failed = negsuc 31_999

abbrev pub not_found : ℤ
not_found = negsuc 32_600

abbrev pub bad_request : ℤ
bad_request = negsuc 32_699

unfoldable pub unknown_method : RpcRequest → RpcResponse
unknown_method req = failed req.id not_found (bytes "method not found: " ++ req.method)

unfoldable pub answer_call : RpcRequest → Result Reply → RpcResponse
unfolding replied
answer_call req (ok r) = replied req r
answer_call req (err e) = failed req.id store_failed e

unfoldable pub answer_komari : RpcRequest → Result Reply → RpcResponse
unfolding replied unknown_method
answer_komari req (ok r) = replied req r
answer_komari req (err e) = unknown_method req

-- The switch over the method, by the case of each of the two functions.
unfoldable pub switch :
    Handler → RpcRequest → Option Method → Option KomariMethod → Db → RpcResponse × Db
unfolding answer_call answer_komari unknown_method
switch h req (some m) k db = let (r, db') = call h m req.params db in (answer_call req r, db')
switch h req none (some k) db =
    let (r, db') = call_komari h k req.params db in (answer_komari req r, db')
switch h req none none db = (unknown_method req, db)

-- `dispatch`
unfoldable pub dispatch : Handler → RpcRequest → Db → RpcResponse × Db
unfolding method_of switch
dispatch h req db =
    let name = method_of req.method in
    switch h req (lookup name methods) (lookup name komari_methods) db

-- `Handler.ServeHTTP`, for a request that is no upgrade to a websocket.
unfoldable pub rpc_serve : Handler → Text → Db → RpcResponse × Db
rpc_serve h body db = elim (h.decoders.request body) [
  | none ↦ (failed [] bad_request (bytes "parse error"), db)
  | some req ↦ dispatch h req db
]
