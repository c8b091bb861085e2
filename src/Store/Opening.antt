-- ===== src/Store/Opening.antt =====
-- internal/store/store.go: opening a database, which may be an older one: the tables are created and the
-- columns added that are missing. A table is its name with the names of its columns; an index is not
-- modelled.
use sounding.Prelude.{
  Bool, false, Option, none, some, List, [], ◌∷◌, ◌++◌, Text, bytes, same, any, if◌then◌else◌,
  Result, ok, err, lookup, insert,
}

abbrev pub Tables : Type 0
Tables = List (Text × List Text)

-- The statements to come fail as the field `faults` says, like those of Store.Db.
pub record Schema : Type 0 where
  pub tables : Tables
  pub faults : List (Option Text)

abbrev pub Step : Type 0
Step = Schema → Result (Unit {0}) × Schema

abbrev worked : Result Tables → Schema → Result (Unit {0}) × Schema
worked (ok ts) s = (ok tt, record s { tables = ts })
worked (err e) s = (err e, s)

abbrev with_fault : List (Option Text) → (Tables → Result Tables) → Step
with_fault [] f s = worked (f s.tables) s
with_fault (none ∷ fs) f s = worked (f s.tables) (record s { faults = fs })
with_fault (some e ∷ fs) f s = (err e, record s { faults = fs })

-- One Exec.
unfoldable pub execute : (Tables → Result Tables) → Step
execute f s = with_fault s.faults f s

abbrev after : Result (Unit {0}) → Step → Step
after (ok u) k s = k s
after (err e) k s = (err e, s)

infixl 5 ◌then_do◌
abbrev pub ◌then_do◌ : Step → Step → Step
(m then_do k) s = let (r, s') = m s in after r k s'

-- `CREATE TABLE IF NOT EXISTS`
abbrev created : Option (List Text) → Text → List Text → Tables → Tables
created none name columns ts = insert name columns ts
created (some cs) name columns ts = ts

unfoldable pub create_table : Text → List Text → Tables → Tables
create_table name columns ts = created (lookup name ts) name columns ts

-- `ALTER TABLE … ADD COLUMN …`
unfoldable pub add_column : Text → Text → Tables → Result Tables
add_column name column ts = elim (lookup name ts) [
  | none ↦ err (bytes "no such table: " ++ name)
  | some cs ↦
      if any (same column) cs
      then err (bytes "duplicate column name: " ++ column)
      else ok (insert name (cs ++ column ∷ []) ts)
]

-- The rows of `PRAGMA table_info`; a table that does not exist has none.
abbrev pub is_in : Text → Option (List Text) → Bool
is_in column none = false
is_in column (some cs) = any (same column) cs

unfoldable pub has_column : Text → Text → Tables → Bool
has_column name column ts = is_in column (lookup name ts)

abbrev asked : List (Option Text) → (Bool → Step) → Text → Text → Step
asked [] k name column s = k (has_column name column s.tables) s
asked (none ∷ fs) k name column s = k (has_column name column s.tables) (record s { faults = fs })
asked (some e ∷ fs) k name column s = (err e, record s { faults = fs })

-- A column that is missing is added.
unfoldable pub ensure_column : Text → Text → Step
unfolding has_column add_column execute
ensure_column name column s =
    asked s.faults (λ has. if has then (λ t. (ok tt, t)) else execute (add_column name column)) name
      column s

unfoldable pub ensure_all : List (Text × Text) → Step
unfolding ensure_column
ensure_all [] s = (ok tt, s)
ensure_all ((name, column) ∷ cs) s = (ensure_column name column then_do ensure_all cs) s

-- The statements of CREATE TABLE, as a table and its columns.
abbrev nodes_columns : List Text
nodes_columns =
    bytes "uuid"
    ∷ bytes "name"
    ∷ bytes "cpu_name"
    ∷ bytes "arch"
    ∷ bytes "os"
    ∷ bytes "region"
    ∷ bytes "cpu_cores"
    ∷ bytes "mem_total"
    ∷ bytes "swap_total"
    ∷ bytes "disk_total"
    ∷ bytes "kernel_version"
    ∷ bytes "virtualization"
    ∷ bytes "price"
    ∷ bytes "billing_cycle"
    ∷ bytes "currency"
    ∷ bytes "expired_at"
    ∷ bytes "group_name"
    ∷ bytes "tags"
    ∷ bytes "public_remark"
    ∷ []

abbrev status_history_columns : List Text
status_history_columns =
    bytes "client"
    ∷ bytes "time"
    ∷ bytes "cpu"
    ∷ bytes "ram"
    ∷ bytes "swap"
    ∷ bytes "load"
    ∷ bytes "disk"
    ∷ bytes "net_in"
    ∷ bytes "net_out"
    ∷ bytes "net_total_up"
    ∷ bytes "net_total_down"
    ∷ bytes "process"
    ∷ bytes "connections"
    ∷ bytes "connections_udp"
    ∷ bytes "temp"
    ∷ bytes "load5"
    ∷ bytes "load15"
    ∷ bytes "ram_total"
    ∷ bytes "swap_total"
    ∷ bytes "disk_total"
    ∷ bytes "uptime"
    ∷ []

abbrev probe_tasks_columns : List Text
probe_tasks_columns =
    bytes "id"
    ∷ bytes "client"
    ∷ bytes "target"
    ∷ bytes "type"
    ∷ bytes "name"
    ∷ bytes "interval_sec"
    ∷ bytes "enabled"
    ∷ []

abbrev probe_records_columns : List Text
probe_records_columns = bytes "client" ∷ bytes "task_id" ∷ bytes "time" ∷ bytes "value" ∷ []

abbrev alert_rules_columns : List Text
alert_rules_columns =
    bytes "kind"
    ∷ bytes "node"
    ∷ bytes "threshold"
    ∷ bytes "silence_until"
    ∷ bytes "mute_windows"
    ∷ []

abbrev secrets_columns : List Text
secrets_columns = bytes "key" ∷ bytes "value" ∷ []

unfoldable pub create_tables : Tables → Tables → Tables
unfolding create_table
create_tables [] ts = ts
create_tables ((name, columns) ∷ new) ts = create_tables new (create_table name columns ts)

abbrev pub main_tables : Tables
main_tables = (bytes "nodes", nodes_columns) ∷ (bytes "status_history", status_history_columns) ∷ []

abbrev pub probe_tables : Tables
probe_tables =
    (bytes "probe_tasks", probe_tasks_columns)
    ∷ (bytes "probe_records", probe_records_columns)
    ∷ (bytes "alert_rules", alert_rules_columns)
    ∷ (bytes "secrets", secrets_columns)
    ∷ []

-- The columns that `ensureColumns` adds.
abbrev pub added_columns : List (Text × Text)
added_columns =
    (bytes "nodes", bytes "swap_total")
    ∷ (bytes "nodes", bytes "kernel_version")
    ∷ (bytes "nodes", bytes "virtualization")
    ∷ (bytes "status_history", bytes "uptime")
    ∷ []

unfoldable pub migrate : Step
unfolding create_tables execute
migrate = execute λ ts. ok (create_tables main_tables ts)

unfoldable pub ensure_probe_tables : Step
unfolding create_tables execute
ensure_probe_tables = execute λ ts. ok (create_tables probe_tables ts)

unfoldable pub ensure_columns : Step
unfolding ensure_all
ensure_columns = ensure_all added_columns

-- `Open`, past the connection.
unfoldable pub open_store : Step
unfolding migrate ensure_probe_tables ensure_columns
open_store = migrate then_do ensure_probe_tables then_do ensure_columns
