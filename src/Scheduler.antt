-- ===== src/Scheduler.antt =====
-- internal/probe/scheduler.go: which probes each tick starts. A probe runs beside the loop and only
-- writes its record; the semaphore that bounds how many run at one time is left out.
use sounding.Prelude.{
  ℕ, zero, suc, ◌-◌, ◌*◌, Bool, true, false, not, ◌&&◌, Option, none, some, List, [], ◌∷◌, ◌++◌,
  Text, any, keep, same, is_empty, ltb, if◌then◌else◌, lookup, insert, Float, minus_one, Result, ok,
  err,
}
use sounding.Clock.{Time, Duration, Zone, minute}
use sounding.Store.Db.{Db}
use sounding.Store.Probes.{Task, probe_tasks, probe_clients}
use sounding.Decimal.{decimal}
use sounding.Store.Records.{insert_probe}
pub mod Spacing
mod Tests

abbrev pub LastRun : Type 0
LastRun = List (Text × Time)

-- A probe that a tick starts.
pub record Run : Type 0 where
  pub client : Text
  pub task : Task
  pub at : Time

unfoldable pub run_key : Text → Task → Text
run_key client t = client ++ b'|' ∷ decimal t.id

-- An interval of none is a minute.
unfoldable pub period : Task → Duration
period t = elim t.interval [ zero ↦ minute | suc n ↦ suc n ]

-- `last, ok := lastRun[key]; ok && now.Sub(last) < interval`
unfoldable pub is_early : Time → Duration → Option Time → Bool
is_early now interval none = false
is_early now interval (some last) = ltb (now - last) interval

-- One round of the loop over a client's tasks.
unfoldable pub attempt : Time → Text → Task → LastRun → LastRun × List Run
unfolding run_key period is_early
attempt now client t last =
    if not t.enabled
    then (last, [])
    else if is_early now (period t) (lookup (run_key client t) last)
    then (last, [])
    else (insert (run_key client t) now last, record { client = client; task = t; at = now } ∷ [])

unfoldable pub attempt_all : Time → Text → List Task → LastRun → LastRun × List Run
unfolding attempt
attempt_all now client [] last = (last, [])
attempt_all now client (t ∷ ts) last =
    let (last', started) = attempt now client t last in
    let (last'', later) = attempt_all now client ts last' in (last'', started ++ later)

tasks_or_none : Result (List Task) → List Task
tasks_or_none (ok ts) = ts
tasks_or_none (err e) = []

-- The loop over the clients; a client whose tasks cannot be loaded is passed over.
unfoldable pub tick_clients : Time → List Text → LastRun → Db → LastRun × List Run
unfolding attempt_all tasks_or_none
tick_clients now [] last db = (last, [])
tick_clients now (c ∷ cs) last db =
    let (tasks, db') = probe_tasks c db in
    let (last', started) = attempt_all now c (tasks_or_none tasks) last in
    let (last'', later) = tick_clients now cs last' db' in (last'', started ++ later)

-- The loop of `add`: each name that is neither empty nor seen.
unfoldable pub add_all : List Text → List Text → List Text
add_all out [] = out
add_all out (c ∷ cs) =
    add_all (if not (is_empty c) && not (any (same c) out) then out ++ c ∷ [] else out) cs

clients_or_none : Result (List Text) → List Text
clients_or_none (ok cs) = cs
clients_or_none (err e) = []

-- `clients`; an error leaves the fixed ones.
unfoldable pub clients : List Text → Db → List Text × Db
unfolding add_all clients_or_none
clients extra db =
    let (found, db') = probe_clients db in (add_all (add_all [] (clients_or_none found)) extra, db')

-- One tick.
unfoldable pub tick : List Text → Time → LastRun → Db → LastRun × List Run
unfolding clients tick_clients
tick extra now last db = let (cs, db') = clients extra db in tick_clients now cs last db'

-- The ticks of `loop`, each with its instant and what the database holds then.
unfoldable pub loop : List Text → List (Time × Db) → LastRun → List Run
unfolding tick
loop extra [] last = []
loop extra ((now, db) ∷ ticks) last =
    let (last', started) = tick extra now last db in started ++ loop extra ticks last'

-- `NewScheduler` keeps the fixed clients that are named.
unfoldable pub named_clients : List Text → List Text
named_clients = keep (λ c. not (is_empty c))

-- What `run` writes for the result of a probe: its value, or -1 if it failed.
unfoldable pub record_result : Zone → Time → Run → Bool → Float → Db → Db
record_result z now r succeeded value db =
    (insert_probe r.client r.task.id (z.format_time now) (if succeeded then value else minus_one)
      db).1
