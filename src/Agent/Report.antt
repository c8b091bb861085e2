-- ===== src/Agent/Report.antt =====
-- cmd/agent/main.go: the reports that the agent sends. HTTP is a parameter; a request that cannot be built is one
-- without an answer.
use sounding.Prelude.{
  ℕ, Bool, Option, none, some, List, [], ◌∷◌, Text, length, if◌then◌else◌, ◌==◌, ◌≡◌, refl, ap, suc,
}
use sounding.Clock.{Time}
use sounding.Contract.{AgentStatus, ProbeTarget}
use sounding.Store.Nodes.{OsInfo}
use sounding.Collector.{Collector, Readings, collect}
use sounding.Agent.Probes.{RemoteTask, remote_probes}
use sounding.Agent.Config.{
  Given, ConfigStore, resolve_server, resolve_token, resolve_uuid, reported_targets,
}

-- The status of an answer to /agent/config, and the tasks of its body if it decodes.
pub record ConfigAnswer : Type 0 where
  pub status : ℕ
  pub tasks : Option (List RemoteTask)

-- `fetchRemoteProbes`; any failure gives no probes.
unfoldable pub fetch_remote_probes : Option ConfigAnswer → Text
unfolding remote_probes
fetch_remote_probes none = []
fetch_remote_probes (some a) =
    if a.status == 200 then elim a.tasks [ none ↦ [] | some tasks ↦ remote_probes tasks ] else []

-- The body of a report, with the server and the token that it is sent with.
pub record Report : Type 0 where
  pub server : Text
  pub token : Text
  pub uuid : Text
  pub name : Text
  pub os_info : OsInfo
  pub status : AgentStatus
  pub probes : List ProbeTarget
  pub time : Time

-- What the agent is started with.
pub record Agent : Type 0 where
  pub flags : Given
  pub env : Given
  pub remote_config : Bool
  pub uuid : Text
  pub os_info : OsInfo

-- The name of the node is fixed at the start.
unfoldable pub start_agent : Given → Given → Bool → ConfigStore → OsInfo → Agent
start_agent flags env remote_config cs os_info = record {
  flags = flags;
  env = env;
  remote_config = remote_config;
  uuid = resolve_uuid flags env cs os_info.host_name;
  os_info = os_info;
}

-- What a tick finds: the settings as they are then, the answer of the server, the readings of the machine and
-- the instant of sending.
pub record Tick : Type 0 where
  pub config : ConfigStore
  pub answer : Option ConfigAnswer
  pub readings : Readings
  pub sent_at : Time

-- `report`
unfoldable pub report : Agent → Tick → Text → Collector → Report × Collector
report a t remote c =
    let (snap, c') = collect t.readings c in
    (
      record {
        server = resolve_server a.flags a.env t.config;
        token = resolve_token a.flags a.env t.config;
        uuid = a.uuid;
        name = a.os_info.host_name;
        os_info = a.os_info;
        status = snap;
        probes = reported_targets remote a.flags a.env t.config;
        time = t.sent_at;
      },
      c',
    )

-- The probes of the server are asked for before each report, or stay as they are.
unfoldable pub refreshed : Agent → Tick → Text → Text
unfolding fetch_remote_probes
refreshed a t remote = if a.remote_config then fetch_remote_probes t.answer else remote

-- The report at the start, and one for each tick after it.
unfoldable pub run_agent : Agent → List Tick → Text → Collector → List Report
unfolding report refreshed
run_agent a [] remote c = []
run_agent a (t ∷ ts) remote c =
    let remote' = refreshed a t remote in
    let (r, c') = report a t remote' c in r ∷ run_agent a ts remote' c'

-- Each tick gives one report, whatever the server answers.
run_agent-length :
    (a : Agent) (ts : List Tick) (remote : Text) (c : Collector)
    → length (run_agent a ts remote c) ≡ length ts
unfolding run_agent
run_agent-length a [] remote c = refl
run_agent-length a (t ∷ ts) remote c =
    let remote' = refreshed a t remote in
    ap suc (run_agent-length a ts remote' (report a t remote' c).1)
