-- ===== src/Samples.antt =====
-- Values for the examples of the other parts: `Codecs` has parameters that read back what they write, `Rows` small
-- tables, and this file requests with what a handler reads.
mod Codecs
mod Rows
pub use Codecs.{zone, json, json-JsonLaws, crypto, crypto-CryptoLaws}
pub use Rows.{node, task, probe, db, rule, loss_event, manager, agent_status, payload}
use sounding.Prelude.{true, none, some, [], ◌∷◌, Text, bytes, float, pos}
use sounding.Api.{Env, Request}
use sounding.Json.{Value}
use sounding.Rpc.Types
use sounding.Rpc.Types.{RpcRequest, RecordParams, MetricParams}

-- Decoders that know one body each.
abbrev pub env : Env
env = record {
  zone = zone;
  now = 0;
  json = json;
  crypto = crypto;
  decoders = record {
    agent_payload = λ _. some payload;
    client = λ _. none;
    uuid = λ _. some (bytes "n1");
    rule = λ _. some rule;
    rule_key = λ _. none;
    probe_form = λ _. none;
    probe_key = λ _. none;
    credentials = λ _. some (bytes "admin", bytes "secret");
  };
}

abbrev pub request : Text → Text → Request
request method path = record {
  method = method;
  path = path;
  auth_token = [];
  admin_token = [];
  authorization = [];
  body = [];
}

-- A handler of JSON-RPC whose requests all ask for two metrics.
abbrev pub rpc_request : RpcRequest
rpc_request = record { jsonrpc = []; id = []; method = bytes "public:queryMetrics"; params = [] }

abbrev pub record_params : RecordParams
record_params = record {
  type = [];
  uuid = [];
  client = [];
  hours = float 1;
  task_id = pos 0;
  load_type = [];
  max_count = pos 0;
  max_count_snake = pos 0;
}

abbrev pub metric_params : MetricParams
metric_params = record {
  metric_keys = bytes "cpu.usage" ∷ bytes "ping.loss" ∷ [];
  metrics = [];
  entity_id = [];
  uuid = [];
  hours = float 1;
  max_points = pos 0;
}

abbrev rpc_decoders : Types.Decoders
rpc_decoders = record {
  request = λ _. some rpc_request;
  ping = λ _. record { client = []; task_id = pos 0; limit = pos 0 };
  recent = λ _. (record { uuid = []; client = []; limit = pos 0 }, true);
  array = λ _. none;
  text = λ _. none;
  int = λ _. none;
  record_params = λ _. record_params;
  ping_records =
      λ _. record { uuid = []; task_id = Value.null; hours = float 1; max_count = pos 0 };
  metrics = λ _. metric_params;
  stats = λ _. record {
    entity_id = [];
    uuid = [];
    task_id = Value.null;
    task_ids = [];
    hours = float 1;
  };
}

abbrev pub handler : Types.Handler
handler = record {
  public_settings = none;
  version = [];
  zone = zone;
  now = 0;
  read_at = λ n. 0;
  decoders = rpc_decoders;
}
