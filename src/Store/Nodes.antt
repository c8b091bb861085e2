-- ===== src/Store/Nodes.antt =====
-- internal/store/adapters.go: the nodes, as agents and administrators write them.
use sounding.Prelude.{
  false, ◌||◌, not, none, some, List, [], ◌∷◌, map, Text, keep, bytes, same, is_empty, or_else,
  if◌then◌else◌, Float, float, pos, is_positive, lookup,
}
use sounding.Prelude.Table.{upsert, delete}
use sounding.Json.{Json, Value}
use sounding.Contract.{Client}
use sounding.Store.Db.{M, ◌>>◌, statement, query, exec, node_key}

pub record OsInfo : Type 0 where
  pub host_name : Text
  pub cpu_name : Text
  pub arch : Text
  pub os : Text
  pub kernel_version : Text
  pub virtualization : Text
  pub region : Text
  pub cpu_cores : Float
  pub mem_total : Float
  pub swap_total : Float
  pub disk_total : Float

abbrev pub Members : Type 0
Members = List (Text × Value)

-- `pick`: the first key with a string that is not empty.
unfoldable pub pick_text : Members → List Text → Text
pick_text m [] = []
pick_text m (k ∷ ks) = elim (lookup k m) [
  | some (Value.text s) ↦ or_else s (pick_text m ks)
  | _ ↦ pick_text m ks
]

-- `num`: the first key with a number; null is read as 0.
unfoldable pub pick_number : Members → List Text → Float
pick_number m [] = pos 0
pick_number m (k ∷ ks) = elim (lookup k m) [
  | some (Value.number f) ↦ f
  | some Value.null ↦ pos 0
  | _ ↦ pick_number m ks
]

unfoldable pub os_info_of : Members → OsInfo
unfolding pick_text pick_number
os_info_of m = record {
  host_name = pick_text m (bytes "host_name" ∷ bytes "HostName" ∷ []);
  cpu_name = pick_text m (bytes "cpu_name" ∷ bytes "CPUName" ∷ []);
  arch = pick_text m (bytes "arch" ∷ bytes "Arch" ∷ []);
  os = pick_text m (bytes "os" ∷ bytes "OS" ∷ []);
  region = pick_text m (bytes "region" ∷ bytes "Region" ∷ []);
  kernel_version = pick_text m (bytes "kernel_version" ∷ bytes "KernelVersion" ∷ []);
  virtualization = pick_text m (bytes "virtualization" ∷ bytes "Virtualization" ∷ []);
  cpu_cores = pick_number m (bytes "cpu_cores" ∷ bytes "CPUCores" ∷ []);
  mem_total = pick_number m (bytes "mem_total" ∷ bytes "MemTotal" ∷ []);
  swap_total = pick_number m (bytes "swap_total" ∷ bytes "SwapTotal" ∷ []);
  disk_total = pick_number m (bytes "disk_total" ∷ bytes "DiskTotal" ∷ []);
}

-- An empty text or one that is no object gives the zero value.
unfoldable pub parse_os_info : Json → Text → OsInfo
unfolding os_info_of
parse_os_info j info =
    if is_empty info
    then os_info_of []
    else elim (j.object info) [ none ↦ os_info_of [] | some m ↦ os_info_of m ]

-- The row that `UpsertNode` offers.
unfoldable pub reported_node : Text → Text → OsInfo → Client
reported_node uuid name o = record {
  uuid = uuid;
  name = name;
  cpu_name = or_else o.cpu_name (bytes "unknown");
  virtualization = o.virtualization;
  arch = or_else o.arch (bytes "unknown");
  cpu_cores = if is_positive o.cpu_cores then o.cpu_cores else float 1;
  os = or_else o.os (bytes "sounding-agent");
  kernel_version = o.kernel_version;
  region = or_else o.region (bytes "UNKNOWN");
  public_remark = bytes "sounding-agent 节点";
  mem_total = o.mem_total;
  swap_total = o.swap_total;
  disk_total = o.disk_total;
  weight = pos 0;
  price = pos 0;
  billing_cycle = pos 0;
  auto_renewal = false;
  currency = bytes "USD";
  expired_at = [];
  group = bytes "agent";
  groups = [];
  tags = [];
  hidden = false;
}

-- `CASE WHEN excluded.c NOT IN ('', d) THEN excluded.c ELSE nodes.c END`
abbrev known_text : Text → Text → Text → Text
known_text d new old = if is_empty new || same new d then old else new

-- `CASE WHEN excluded.c > 0 THEN excluded.c ELSE nodes.c END`
abbrev known_number : Float → Float → Float
known_number new old = if is_positive new then new else old

-- The SET list of `UpsertNode`.
unfoldable pub refresh : Client → Client → Client
refresh new old = record old {
  name = new.name;
  cpu_name = known_text (bytes "unknown") new.cpu_name old.cpu_name;
  arch = known_text (bytes "unknown") new.arch old.arch;
  os = known_text (bytes "sounding-agent") new.os old.os;
  cpu_cores = known_number new.cpu_cores old.cpu_cores;
  mem_total = known_number new.mem_total old.mem_total;
  swap_total = known_number new.swap_total old.swap_total;
  disk_total = known_number new.disk_total old.disk_total;
  kernel_version = or_else new.kernel_version old.kernel_version;
  virtualization = or_else new.virtualization old.virtualization;
}

unfoldable pub upsert_node : Json → Text → Text → Text → M (Unit {0})
unfolding statement
upsert_node j uuid name info =
    let new = reported_node uuid name (parse_os_info j info) in
    exec λ db. record db { nodes = upsert node_key (refresh new) new db.nodes }

-- The columns that `AdminUpsertNode` writes; the others take their defaults.
unfoldable pub admin_row : Client → Client
admin_row n = record n {
  virtualization = [];
  kernel_version = [];
  swap_total = n.swap_total;
  weight = pos 0;
  auto_renewal = false;
  groups = [];
  hidden = false;
}

unfoldable pub admin_upsert_node : Client → M (Unit {0})
unfolding statement admin_row
admin_upsert_node n = exec λ db. record db {
  nodes =
      upsert node_key (λ old. record old { name = n.name; region = n.region; price = n.price })
        (admin_row n) db.nodes;
}

-- `Nodes`: the map from uuids to nodes, as its list of values.
unfoldable pub nodes : M (List Client)
unfolding statement
nodes = query λ db. map {A = Client} (λ c. record c { groups = c.group ∷ [] }) db.nodes

unfoldable pub admin_delete_node : Text → M (Unit {0})
unfolding statement
admin_delete_node uuid = do
  exec λ db. record db { status_history = keep (λ r. not (same r.client uuid)) db.status_history }
  exec λ db. record db { nodes = delete node_key uuid db.nodes }
