-- ===== src/Store/Records.antt =====
-- internal/store: the histories of statuses and probe values (adapters.go, records.go), and their
-- retention (retention.go). Times are compared as texts. An index or a LIMIT is a number.
use sounding.Prelude.{
  ℕ, zero, suc, ◌+◌, ◌*◌, Bool, true, false, ◌||◌, ◌&&◌, not, List, [], ◌∷◌, ◌++◌, map, Text, keep,
  length, take, same, is_empty, if◌then◌else◌, Float, ℤ, pos, negsuc, int_or, sort_by, leb_text,
  ltb_text, ltb, ◌==◌, Result, ok, err,
}
use sounding.Contract.{AgentStatus, StatusRecord, PingRecord}
use sounding.Clock.{Time, Zone, hour, earlier, hours_before}
use sounding.Store.Db.{Db, M, ◌>>=◌, done, statement, query, exec, StatusRow}

unfoldable pub insert_status : Zone → Time → Text → AgentStatus → M (Unit {0})
unfolding statement
insert_status z now uuid st = exec λ db. record db {
  status_history =
      db.status_history ++ record { client = uuid; time = z.format_time now; status = st } ∷ [];
}

unfoldable pub insert_probe : Text → ℕ → Text → Float → M (Unit {0})
unfolding statement
insert_probe client task_id time value = exec λ db. record db {
  probe_records =
      db.probe_records
      ++ record { client = client; task_id = task_id; time = time; value = value } ∷ [];
}

unfoldable pub status_record : StatusRow → StatusRecord
status_record r = record {
  client = r.client;
  time = r.time;
  cpu = r.status.cpu;
  ram = r.status.ram;
  swap = r.status.swap;
  load = r.status.load;
  load5 = r.status.load5;
  load15 = r.status.load15;
  temp = r.status.temp;
  disk = r.status.disk;
  net_in = r.status.net_in;
  net_out = r.status.net_out;
  net_total_up = r.status.net_total_up;
  net_total_down = r.status.net_total_down;
  process = r.status.process;
  connections = r.status.connections;
  connections_udp = r.status.connections_udp;
  ram_total = r.status.ram_total;
  swap_total = r.status.swap_total;
  disk_total = r.status.disk_total;
}

-- `if limit <= 0 || limit > most { limit = usual }`
unfoldable pub clamp_limit : ℕ → ℕ → ℤ → ℕ
clamp_limit most usual (pos zero) = usual
clamp_limit most usual (pos (suc n)) = if ltb most (suc n) then usual else suc n
clamp_limit most usual (negsuc n) = usual

-- The text of the instant `hours` before the store reads the clock.
unfoldable pub cutoff_of : Zone → Time → ℕ → Text
unfolding hours_before
cutoff_of z now hours = hours_before z now hours

-- `time.Now().AddDate(0, 0, -days).Format(time.RFC3339)`
unfoldable pub retention_cutoff : Zone → Time → ℤ → Text
unfolding earlier
retention_cutoff z now days = earlier z now (int_or days 30 * 24 * hour)

-- `AND client = ?`, if a client is given.
unfoldable pub is_of : Text → Text → Bool
is_of client c = is_empty client || same c client

unfoldable pub records_since : Zone → Time → Text → ℤ → ℤ → M (List StatusRecord)
unfolding statement status_record clamp_limit cutoff_of is_of
records_since z now client hours limit =
    let cutoff = cutoff_of z now (int_or hours 1) in
    query λ db. map status_record (
      take (clamp_limit 5000 1000 limit) (
        sort_by (λ r s. leb_text r.time s.time)
          (keep (λ r. leb_text cutoff r.time && is_of client r.client) db.status_history)))

-- `AND task_id = ?`, if the id is positive.
unfoldable pub is_of_task : ℤ → ℕ → Bool
is_of_task (pos zero) id = true
is_of_task (pos (suc n)) id = id == suc n
is_of_task (negsuc n) id = true

unfoldable pub probe_records_since : Zone → Time → Text → ℤ → ℤ → ℤ → M (List PingRecord)
unfolding statement clamp_limit cutoff_of is_of is_of_task
probe_records_since z now client task_id hours limit =
    let cutoff = cutoff_of z now (int_or hours 1) in
    query λ db. take (clamp_limit 20000 5000 limit) (
      sort_by (λ r s. leb_text r.time s.time)
        (keep (λ r. leb_text cutoff r.time && is_of client r.client && is_of_task task_id r.task_id)
          db.probe_records))

-- The newest rows first, up to a limit, and then in the order of time.
abbrev newest {ℓ} : {A : Type ℓ} → (A → Text) → ℕ → List A → List A
newest time limit rows =
    sort_by (λ r s. leb_text (time r) (time s))
      (take limit (sort_by (λ r s. leb_text (time s) (time r)) rows))

unfoldable pub recent_status : Text → ℕ → M (List StatusRecord)
unfolding statement status_record
recent_status client limit = query λ db.
    map status_record
      (newest (λ r. r.time) limit (keep (λ r. same r.client client) db.status_history))

-- `task_id = ?`
unfoldable pub is_id : ℤ → ℕ → Bool
is_id (pos n) id = id == n
is_id (negsuc n) id = false

unfoldable pub ping_records : Text → ℤ → ℕ → M (List PingRecord)
unfolding statement is_id
ping_records client task_id limit = query λ db.
    newest (λ r. r.time) limit
      (keep (λ r. same r.client client && is_id task_id r.task_id) db.probe_records)

-- `DELETE … WHERE time < ?` and the number of rows that it affected.
unfoldable pub purge_statuses : Text → M ℕ
unfolding statement
purge_statuses cutoff = statement λ db. (
  length (keep (λ r. ltb_text r.time cutoff) db.status_history),
  record db { status_history = keep (λ r. not (ltb_text r.time cutoff)) db.status_history },
)

unfoldable pub purge_probes : Text → M ℕ
unfolding statement
purge_probes cutoff = statement λ db. (
  length (keep (λ r. ltb_text r.time cutoff) db.probe_records),
  record db { probe_records = keep (λ r. not (ltb_text r.time cutoff)) db.probe_records },
)

-- `Purge`. Days are of 24 hours. The count beside an error is not kept; no caller reads it.
unfoldable pub purge : Zone → Time → ℤ → M ℕ
unfolding purge_statuses purge_probes retention_cutoff
purge z now retain_days = do
  let cutoff = retention_cutoff z now retain_days
  n ← purge_statuses cutoff
  n2 ← purge_probes cutoff
  done (n + n2)

unfoldable pub vacuum : M (Unit {0})
unfolding statement
vacuum = exec λ db. db

-- What follows a purge: only after rows are gone the file is made smaller.
unfoldable pub after_purge : Result ℕ × Db → Db
unfolding vacuum
after_purge (err e, db) = db
after_purge (ok n, db) = if ltb 0 n then (vacuum db).1 else db

-- One tick of `RetentionLoop`; its errors are logged.
unfoldable pub retention_tick : Zone → Time → ℤ → Db → Db
unfolding purge after_purge
retention_tick z now retain_days db = after_purge (purge z now retain_days db)
