-- ===== src/Samples/Rows.antt =====
-- Small tables, rules and reports.
use sounding.Prelude.{ℕ, ◌*◌, false, [], ◌∷◌, Text, bytes, Float, float, pos, minus_one}
use sounding.Clock.{minute}
use sounding.Contract.{Client, PingRecord, AgentStatus, AgentPayload}
use sounding.Alert.Rules.{Rule}
use sounding.Alert.Manager.{Manager, Event}
use sounding.Notify.{Notifier}
use sounding.Store.Db.{Db, TaskRow}

abbrev pub node : Text → Client
node uuid = record {
  uuid = uuid;
  name = bytes "old";
  cpu_name = bytes "cpu";
  virtualization = [];
  arch = bytes "x86_64";
  cpu_cores = float 8;
  os = bytes "linux";
  kernel_version = [];
  region = bytes "CN";
  public_remark = [];
  mem_total = float 4;
  swap_total = pos 0;
  disk_total = pos 0;
  weight = pos 0;
  price = float 9;
  billing_cycle = float 12;
  auto_renewal = false;
  currency = bytes "USD";
  expired_at = [];
  group = bytes "agent";
  groups = [];
  tags = [];
  hidden = false;
}

abbrev pub task : ℕ → Text → Text → TaskRow
task id client name = record {
  id = id;
  client = client;
  target = bytes "1.1.1.1";
  type = bytes "icmp";
  name = name;
  interval_sec = float 300;
  enabled = 0;
}

abbrev pub probe : Text → ℕ → Float → PingRecord
probe client time value = record { client = client; task_id = 1; time = time ∷ []; value = value }

abbrev pub db : Db
db = record {
  nodes = node (bytes "n1") ∷ node (bytes "n2") ∷ [];
  status_history = [];
  probe_tasks = task 1 (bytes "n1") (bytes "dns") ∷ [];
  next_id = 2;
  probe_records = probe (bytes "n1") 10 (float 5) ∷ probe (bytes "n1") 9000000 minus_one ∷ [];
  alert_rules = [];
  secrets = [];
  faults = [];
}

abbrev pub rule : Rule
rule = record {
  kind = bytes "loss";
  node = bytes "*";
  threshold = float 100;
  silence_until = [];
  mute_windows = bytes "23:00-01:00" ∷ [];
}

abbrev pub loss_event : Event
loss_event = record {
  kind = bytes "loss";
  node = bytes "n1";
  node_name = bytes "n1";
  value = float 100;
  threshold = pos 0;
  message = [];
  time = [];
}

abbrev pub manager : Manager
manager = record {
  rules = rule ∷ [];
  last_sent = [];
  cooldown = 5 * minute;
  notifiers = Notifier.webhook (bytes "http://hook") ∷ [];
}

abbrev pub agent_status : AgentStatus
agent_status = record {
  cpu = float 5;
  ram = float 1;
  swap = pos 0;
  load = pos 0;
  disk = pos 0;
  net_in = pos 0;
  net_out = pos 0;
  net_total_up = pos 0;
  net_total_down = pos 0;
  process = pos 0;
  connections = pos 0;
  connections_udp = pos 0;
  temp = pos 0;
  load5 = pos 0;
  load15 = pos 0;
  ram_total = pos 0;
  swap_total = pos 0;
  disk_total = pos 0;
  uptime = pos 0;
}

abbrev pub payload : AgentPayload
payload = record {
  uuid = bytes "n1";
  name = bytes "n1";
  time = [];
  os_info = [];
  status = agent_status;
  probes = record { name = bytes "dns"; host = bytes "1.1.1.1"; type = [] } ∷ [];
}
