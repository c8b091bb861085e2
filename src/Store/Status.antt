-- ===== src/Store/Status.antt =====
-- internal/store/adapters.go: the latest status of each node, with its probe summaries, and the
-- snapshots that the alert watcher asks for. A Go map is a list of its entries.
use mathlib.Core.List.{reverse}
use sounding.Prelude.{
  ℕ, zero, suc, ◌-◌, ◌*◌, ◌/◌, Bool, false, ◌&&◌, ◌||◌, none, some, List, [], ◌∷◌, map, Text, keep,
  take, same, bytes, ltb, leb, ◌==◌, sort_by, leb_text, if◌then◌else◌, any, Float, pos, negsuc,
  is_positive, ok, err, insert,
}
use sounding.Prelude.Table.{find_row}
use sounding.Contract.{Client, NodeStatus, NodeStatusPing, PingRecord}
use sounding.Clock.{Time, Duration, Zone, second}
use sounding.Alert.Watcher.{Snapshot}
use sounding.Stats.{summarize_ping}
use sounding.Store.Db.{Db, M, ◌>>=◌, done, statement, query, StatusRow, TaskRow, node_key}
use sounding.Decimal.{decimal}
use sounding.Store.Nodes.{nodes}

abbrev pub offline_after : Duration
offline_after = 60 * second

abbrev pub ping_window : ℕ
ping_window = 150

-- `WHERE rowid IN (SELECT MAX(rowid) … GROUP BY client)`: the rows that no later row of the same
-- client follows.
unfoldable pub latest_rows : List StatusRow → List StatusRow
latest_rows [] = []
latest_rows (r ∷ rs) =
    let rest = latest_rows rs in if any (λ s. same r.client s.client) rs then rest else r ∷ rest

-- A status as it is scanned; the fields that no column has are zero.
unfoldable pub scanned : StatusRow → NodeStatus
scanned r = record {
  client = r.client;
  time = r.time;
  cpu = r.status.cpu;
  gpu = pos 0;
  ram = r.status.ram;
  ram_total = r.status.ram_total;
  swap = r.status.swap;
  swap_total = r.status.swap_total;
  load = r.status.load;
  load5 = r.status.load5;
  load15 = r.status.load15;
  temp = r.status.temp;
  disk = r.status.disk;
  disk_total = r.status.disk_total;
  net_in = r.status.net_in;
  net_out = r.status.net_out;
  net_total_up = r.status.net_total_up;
  net_total_down = r.status.net_total_down;
  process = r.status.process;
  connections = r.status.connections;
  connections_udp = r.status.connections_udp;
  online = false;
  uptime = r.status.uptime;
  ping = [];
}

-- `time.Since(t) < offlineAfter`; an instant to come is no age, and passes.
unfoldable pub is_online : Zone → Time → Text → Bool
is_online z now last = elim (z.parse_time last) [
  | none ↦ false
  | some t ↦ ltb (now - t) offline_after
]

-- The seconds from an instant to now, in thousandths, rounded towards zero.
unfoldable pub seconds_since : Time → Time → Float
seconds_since now t =
    if leb t now
    then pos ((now - t) / 1_000_000)
    else elim ((t - now) / 1_000_000) [ zero ↦ pos 0 | suc n ↦ negsuc n ]

-- The first of the texts in their order, or the empty one.
unfoldable pub first_time : Text → Db → Text
first_time uuid db =
    elim (sort_by leb_text (map (λ r. r.time) (keep (λ r. same r.client uuid) db.status_history))) [
      | [] ↦ []
      | t ∷ ts ↦ t
    ]

unfoldable pub uptime_from : Zone → Time → Text → Float
uptime_from z now first = elim (z.parse_time first) [ none ↦ pos 0 | some t ↦ seconds_since now t ]

-- An error of the query leaves the empty text.
unfoldable pub first_seen_uptime : Zone → Time → Text → Db → Float × Db
unfolding statement first_time uptime_from seconds_since
first_seen_uptime z now uuid db =
    let (first, db') = query (first_time uuid) db in
    (elim first [ ok t ↦ uptime_from z now t | err e ↦ uptime_from z now [] ], db')

-- The tasks that count: `WHERE enabled=1`.
unfoldable pub enabled_tasks : Db → List TaskRow
enabled_tasks db = keep (λ t. t.enabled == 1) db.probe_tasks

-- The values of one client and task, the newest first, and of equal times the later row first.
unfoldable pub window : Text → ℕ → List PingRecord → List Float
window client id records =
    map (λ r. r.value)
      (take ping_window (
        sort_by (λ r s. leb_text s.time r.time)
          (reverse (keep (λ r. same r.client client && r.task_id == id) records))))

-- The loop that fills a client's summaries, by the texts of the tasks' ids.
unfoldable pub summaries_of :
    Text
    → List PingRecord
    → List TaskRow
    → List (Text × NodeStatusPing)
    → List (Text × NodeStatusPing)
unfolding window decimal
summaries_of client records [] m = m
summaries_of client records (t ∷ ts) m = summaries_of client records ts (
    if same t.client (bytes "*") || same t.client client
    then insert (decimal t.id) (summarize_ping t.name (window client t.id records)) m
    else m)

-- `pingSummaries`: what each client's summaries are.
unfoldable pub ping_summaries : M (Text → List (Text × NodeStatusPing))
unfolding statement enabled_tasks summaries_of
ping_summaries = do
  tasks ← query enabled_tasks
  records ← query λ db. db.probe_records
  done (λ client. summaries_of client records tasks [])

-- The uptime of a status without one is asked for by a query.
unfoldable pub with_uptime : Zone → Time → NodeStatus → Db → NodeStatus × Db
unfolding first_seen_uptime
with_uptime z now n db =
    if is_positive n.uptime
    then (n, db)
    else let (up, db') = first_seen_uptime z now n.client db in (record n { uptime = up }, db')

-- The loop over the scanned statuses.
unfoldable pub complete_all :
    Zone
    → Time
    → (Text → List (Text × NodeStatusPing))
    → List NodeStatus
    → Db
    → List NodeStatus × Db
unfolding with_uptime is_online
complete_all z now pings [] db = ([], db)
complete_all z now pings (n ∷ ns) db =
    let (n', db') =
      with_uptime z now (record n { online = is_online z now n.time; ping = pings n.client }) db in
    let (rest, db'') = complete_all z now pings ns db' in (n' ∷ rest, db'')

-- `LatestStatus`
unfoldable pub latest_status : Zone → Time → M (List NodeStatus)
unfolding statement latest_rows scanned ping_summaries complete_all
latest_status z now = do
  out ← query λ db. map scanned (latest_rows db.status_history)
  pings ← ping_summaries
  λ db. let (ns, db') = complete_all z now pings out db in (ok ns, db')

-- The loop that fills a map by the tasks' names: of two tasks with one name, the later one in the
-- iteration counts.
unfoldable pub by_name :
    {A : Type 0}
    → (NodeStatusPing → A)
    → List (Text × NodeStatusPing)
    → List (Text × A)
    → List (Text × A)
by_name f [] m = m
by_name f ((id, p) ∷ ps) m = by_name f ps (insert p.name (f p) m)

unfoldable pub snapshot_of : Zone → List Client → NodeStatus → Snapshot
unfolding by_name
snapshot_of z clients st = record {
  uuid = st.client;
  name = elim (find_row node_key st.client clients) [ none ↦ st.client | some c ↦ c.name ];
  online = st.online;
  last_seen = z.parse_time st.time;
  ping = by_name (λ p. p.latest) st.ping [];
  loss = by_name (λ p. p.loss) st.ping [];
}

-- `AlertSnapshots`
unfoldable pub alert_snapshots : Zone → Time → M (List Snapshot)
unfolding latest_status nodes snapshot_of
alert_snapshots z now = do
  statuses ← latest_status z now
  clients ← nodes
  done (map (snapshot_of z clients) statuses)
