-- ===== src/Store/Seeds.antt =====
-- internal/store/store.go: the rows that Seed and SeedProbeTasks write.
use sounding.Prelude.{
  ℕ, zero, suc, ◌+◌, ◌-◌, ◌*◌, ◌%◌, false, none, some, List, [], ◌∷◌, ◌++◌, Text, bytes, float, pos,
}
use sounding.Prelude.Table.{Key, find_row}
use sounding.Contract.{Client}
use sounding.Clock.{Time, Zone, hour, second}
use sounding.Store.Db.{M, ◌>>◌, done, statement, exec, StatusRow, TaskRow, task_key, node_key}

-- `INSERT OR IGNORE`: a row whose key is taken is left out.
unfoldable pub insert_or_ignore {ℓ} : {A K : Type ℓ} → Key A K → A → List A → List A
insert_or_ignore t row rows = elim (find_row t (t.key row) rows) [
  | none ↦ rows ++ row ∷ []
  | some r ↦ rows
]

-- The probes that are seeded: a target and a name.
unfoldable pub default_probes : List (Text × Text)
default_probes =
    (bytes "223.5.5.5", bytes "阿里 DNS")
    ∷ (bytes "119.29.29.29", bytes "腾讯 DNS")
    ∷ (bytes "1.1.1.1", bytes "Cloudflare DNS")
    ∷ []

-- The row of a seeded probe; its type is the default of the column.
unfoldable pub seeded_task : ℕ → Text × Text → TaskRow
seeded_task id (target, name) = record {
  id = id;
  client = bytes "*";
  target = target;
  type = bytes "ping";
  name = name;
  interval_sec = float 60;
  enabled = 1;
}

-- One statement of the loop; each INSERT uses an id up.
unfoldable pub seed_task : Text × Text → M (Unit {0})
unfolding statement insert_or_ignore seeded_task
seed_task t = exec λ db. record db {
  next_id = db.next_id + 1;
  probe_tasks = insert_or_ignore task_key (seeded_task db.next_id t) db.probe_tasks;
}

unfoldable pub seed_tasks : List (Text × Text) → M (Unit {0})
unfolding seed_task
seed_tasks [] = done tt
seed_tasks (t ∷ ts) = do seed_task t; seed_tasks ts

-- `SeedProbeTasks`
unfoldable pub seed_probe_tasks : M (Unit {0})
unfolding seed_tasks default_probes
seed_probe_tasks = seed_tasks default_probes

unfoldable pub demo_node : Zone → Time → Text → Text → Client
demo_node z now uuid name = record {
  uuid = uuid;
  name = name;
  cpu_name = bytes "Demo CPU";
  virtualization = [];
  arch = bytes "x86_64";
  cpu_cores = float 2;
  os = bytes "sounding";
  kernel_version = [];
  region = bytes "CN";
  public_remark = bytes "内置演示节点";
  mem_total = float 4294967296;
  swap_total = pos 0;
  disk_total = float 137438953472;
  weight = pos 0;
  price = pos 9900;
  billing_cycle = float 12;
  auto_renewal = false;
  currency = bytes "USD";
  expired_at = z.format_time (now + 720 * hour);
  group = bytes "demo";
  groups = [];
  tags = bytes "demo sounding";
  hidden = false;
}

-- The j-th status of the i-th node.
unfoldable pub demo_status : Zone → Time → Text → ℕ → ℕ → StatusRow
demo_status z now uuid i j = record {
  client = uuid;
  time = z.format_time (now - (20 - j) * (30 * second));
  status = record {
    cpu = float (5 + i * 3 + j % 4);
    ram = float 2147483648;
    swap = pos 0;
    load = pos 800;
    disk = float 42949672960;
    net_in = float 3145728;
    net_out = float 2097152;
    net_total_up = float 10737418240;
    net_total_down = float 5368709120;
    process = float 120;
    connections = float 40;
    connections_udp = float 6;
    temp = pos 0;
    load5 = pos 0;
    load15 = pos 0;
    ram_total = float 4294967296;
    swap_total = float 2147483648;
    disk_total = float 137438953472;
    uptime = pos 0;
  };
}

-- The inner loop, with the number of statuses that are left.
unfoldable pub seed_statuses : Zone → Time → Text → ℕ → ℕ → M (Unit {0})
unfolding statement demo_status
seed_statuses z now uuid i zero = done tt
seed_statuses z now uuid i (suc left) = do
  exec λ db. record db {
    status_history = db.status_history ++ demo_status z now uuid i (20 - suc left) ∷ [];
  }
  seed_statuses z now uuid i left

unfoldable pub seed_node : Zone → Time → Text → Text → ℕ → M (Unit {0})
unfolding statement insert_or_ignore demo_node seed_statuses
seed_node z now uuid name i = do
  exec λ db. record db { nodes = insert_or_ignore node_key (demo_node z now uuid name) db.nodes }
  seed_statuses z now uuid i 20

-- `Seed`
unfoldable pub seed : Zone → Time → M (Unit {0})
unfolding seed_node
seed z now = do
  seed_node z now (bytes "demo-001") (bytes "Demo 节点 · 本地") 0
  seed_node z now (bytes "demo-002") (bytes "Demo 节点 · 备用") 1
