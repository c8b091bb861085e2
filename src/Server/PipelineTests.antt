-- ===== src/Server/PipelineTests.antt =====
-- A task through an agent's report back to the table, tried out.
use sounding.Prelude.{◌≡◌, ◌*◌, refl, true, false, none, some, [], ◌∷◌, bytes, pos, same, any}
use sounding.Clock.{second}
use sounding.Contract.{AgentPayload}
use sounding.Collector.{Collector, new_collector}
use sounding.Agent.Config.{Given}
use sounding.Agent.Report.{Agent, Tick, report, refreshed}
use sounding.Agent.Examples.{gateway, gateway-IsPlain}
use sounding.Store.Nodes.{OsInfo}
use sounding.Store.Db.{TaskRow}
use sounding.Store.ProbeLaws.{task_named}
use sounding.Api.{Env, Request}
use sounding.Api.Agent.{agent_serve, is_stranger}
use sounding.Server.Pipeline.{is_called, agent_serve-remote_tasks}
use sounding.Samples.{env, request, payload, db}

abbrev unset : Given
unset = record { server = []; token = []; node_uuid = []; probes = [] }

abbrev os_info : OsInfo
os_info = record {
  host_name = bytes "n1";
  cpu_name = [];
  arch = [];
  os = [];
  kernel_version = [];
  virtualization = [];
  region = [];
  cpu_cores = pos 0;
  mem_total = pos 0;
  swap_total = pos 0;
  disk_total = pos 0;
}

abbrev agent : Agent
agent = record {
  flags = unset;
  env = unset;
  remote_config = true;
  uuid = bytes "n1";
  os_info = os_info;
}

abbrev tick : Tick
tick = record {
  config = record {
    cfg = record { server = []; token = []; node_uuid = []; interval = []; probes = [] };
    last_mod = 0;
  };
  answer = some (record { status = 200; tasks = some (gateway ∷ []) });
  readings = record {
    memory = none;
    swap = none;
    disk = none;
    load = none;
    temperatures = none;
    now = 0;
    counters = none;
    pids = none;
    uptime = none;
    percent = none;
  };
  sent_at = 7;
}

abbrev collector : Collector
collector = new_collector (15 * second)

abbrev sent : AgentPayload
sent = record payload {
  uuid = bytes "n1";
  probes = (report agent tick (refreshed agent tick []) collector).0.probes;
}

abbrev receiving : Env
receiving = record env { decoders = record env.decoders { agent_payload = λ body. some sent } }

abbrev post : Request
post = request (bytes "POST") (bytes "/agent/status")

is_post : same post.method (bytes "POST") ≡ true
unfolding same bytes
is_post = refl

known : is_stranger [] post ≡ false
unfolding is_stranger
known = refl

is_gateway : any (is_called (bytes "gw")) (gateway ∷ []) ≡ true
unfolding same bytes
is_gateway = refl

agent_serve-remote_tasks_example :
    (row : TaskRow) × (task_named (bytes "n1") (bytes "gw") (agent_serve receiving [] post db).1
      ≡ some row)
    × (row.enabled ≡ 1)
agent_serve-remote_tasks_example =
    agent_serve-remote_tasks receiving [] post sent (bytes "gw") db agent tick (gateway ∷ []) []
      collector refl refl (gateway-IsPlain, tt) (tt, tt) refl refl refl is_post known refl
      is_gateway
