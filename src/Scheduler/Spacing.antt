-- ===== src/Scheduler/Spacing.antt =====
-- internal/probe/scheduler.go: the runs that the loop starts, one tick after another.
use sounding.Prelude.{
  ℕ, ◌+◌, ◌<◌, ◌≤◌, ◌≡◌, refl, Bool, true, false, not, Option, none, some, List, [], ◌∷◌, ◌++◌,
  Text, same, same_iff, if◌then◌else◌, lookup, insert, lookup-insert, lookup-insert_self, All,
  arith, Bool-cases, inl, inr,
}
use sounding.Clock.{Time}
use sounding.Store.Db.{Db}
use sounding.Store.Probes.{Task, probe_tasks}
use sounding.Scheduler.{
  LastRun, Run, run_key, period, is_early, attempt, attempt_all, tick_clients, tick, loop, clients,
  tasks_or_none,
}

-- Which runs lead from one table of last runs to another: each is of an enabled task, and is not early.
pub data Trace : LastRun → List Run → LastRun → Type 0 where
  idle : {last : LastRun} → Trace last [] last
  start :
      {last last' : LastRun} {log : List Run} (r : Run)
      → r.task.enabled ≡ true
      → is_early r.at (period r.task) (lookup (run_key r.client r.task) last) ≡ false
      → Trace (insert (run_key r.client r.task) r.at last) log last'
      → Trace last (r ∷ log) last'

Trace-append : {a b c : LastRun} {l m : List Run} → Trace a l b → Trace b m c → Trace a (l ++ m) c
Trace-append idle q = q
Trace-append (start r on rested p) q = start r on rested (Trace-append p q)

-- The table and the runs that a part of the loop gives.
abbrev Leads : LastRun → LastRun × List Run → Type 0
Leads last x = Trace last x.1 x.0

module _ (now : Time) (client : Text) (t : Task) (last : LastRun) where
  -- The two tests of a round, by their outcomes.
  attempt_by :
      (on early : Bool)
      → t.enabled ≡ on
      → is_early now (period t) (lookup (run_key client t) last) ≡ early
      → Leads last (
          if not on then (last, []) else if early then (last, []) else (
            insert (run_key client t) now last,
            record { client = client; task = t; at = now } ∷ [],
          ))
  attempt_by false early p q = idle
  attempt_by true true p q = idle
  attempt_by true false p q = start (record { client = client; task = t; at = now }) p q idle

  attempt-Trace : Leads last (attempt now client t last)
  unfolding attempt
  attempt-Trace =
      attempt_by t.enabled (is_early now (period t) (lookup (run_key client t) last)) refl refl

attempt_all-Trace :
    (now : Time) (client : Text) (ts : List Task) (last : LastRun)
    → Leads last (attempt_all now client ts last)
unfolding attempt_all
attempt_all-Trace now client [] last = idle
attempt_all-Trace now client (t ∷ ts) last =
    Trace-append (attempt-Trace now client t last)
      (attempt_all-Trace now client ts (attempt now client t last).0)

tick_clients-Trace :
    (now : Time) (cs : List Text) (last : LastRun) (db : Db)
    → Leads last (tick_clients now cs last db)
unfolding tick_clients
tick_clients-Trace now [] last db = idle
tick_clients-Trace now (c ∷ cs) last db =
    let tasks = tasks_or_none (probe_tasks c db).0 in
    Trace-append (attempt_all-Trace now c tasks last)
      (tick_clients-Trace now cs (attempt_all now c tasks last).0 (probe_tasks c db).1)

loop-Trace :
    (extra : List Text) (ticks : List (Time × Db)) (last : LastRun)
    → (last' : LastRun) × Trace last (loop extra ticks last) last'
unfolding loop tick
loop-Trace extra [] last = (last, idle)
loop-Trace extra ((now, db) ∷ ticks) last =
    let (last', rest) = loop-Trace extra ticks (tick extra now last db).0 in
    (
      last',
      Trace-append (tick_clients-Trace now (clients extra db).0 last (clients extra db).1) rest,
    )

-- A run of the key is no sooner after an instant than its interval.
abbrev pub IsAfter : Text → Time → Run → Type 0
IsAfter key t r = run_key r.client r.task ≡ key → t + period r.task ≤ r.at

-- Each run is of an enabled task, and the later runs of its key keep their intervals.
abbrev pub IsSpaced : List Run → Type 0
IsSpaced [] = Unit
IsSpaced (r ∷ log) =
    (r.task.enabled ≡ true) × All (IsAfter (run_key r.client r.task) r.at) log × IsSpaced log

abbrev IsSince : Text → Time → LastRun → Type 0
IsSince key t last = (u : Time) × (lookup key last ≡ some u) × (t ≤ u)

period_positive : (t : Task) → 0 < period t
unfolding period
period_positive t = ground arith

rested_after :
    (now interval t : ℕ) (o : Option Time) (u : Time)
    → 0 < interval
    → o ≡ some u
    → t ≤ u
    → is_early now interval o ≡ false
    → t + interval ≤ now
unfolding is_early
rested_after now interval t none u p e le rested = cc
rested_after now interval t (some v) u p e le rested = ground arith

insert-IsSince :
    (key k : Text) (t now : Time) (last : LastRun)
    → IsSince key t last
    → (k ≡ key → t ≤ now)
    → IsSince key t (insert k now last)
insert-IsSince key k t now last (u, found, le) later = elim (Bool-cases (same k key)) [
  | inl equal ↦ (now, rw (lookup-insert, equal) refl, later ((same_iff k key).0 equal))
  | inr other ↦ (u, rw (lookup-insert, other) found, le)
]

Trace-IsAfter :
    {last last' : LastRun} {log : List Run} (key : Text) (t : Time)
    → Trace last log last'
    → IsSince key t last
    → All (IsAfter key t) log
Trace-IsAfter key t idle since = tt
Trace-IsAfter key t (start {last} r on rested p) since =
    let key' = run_key r.client r.task in
    let gap : IsAfter key t r = λ equal.
      rested_after r.at (period r.task) t (lookup key' last) since.0 (period_positive r.task)
        (rw equal since.1) since.2 rested in
    (
      gap,
      Trace-IsAfter key t p
          (insert-IsSince key key' t r.at last since (λ equal. omega (arith, gap equal))),
    )

Trace-IsSpaced : {last last' : LastRun} {log : List Run} → Trace last log last' → IsSpaced log
Trace-IsSpaced idle = tt
Trace-IsSpaced (start {last} r on rested p) = (
  on,
  Trace-IsAfter (run_key r.client r.task) r.at p
      (r.at, lookup-insert_self (run_key r.client r.task) r.at last, omega arith),
  Trace-IsSpaced p,
)

-- Over any ticks, readings of the clock and states of the database, only enabled tasks are started, and
-- two starts of one task for one client are at least the task's interval apart, as it is at the later
-- start.
pub loop-IsSpaced :
    (extra : List Text) (ticks : List (Time × Db)) (last : LastRun)
    → IsSpaced (loop extra ticks last)
loop-IsSpaced extra ticks last = let (last', p) = loop-Trace extra ticks last in Trace-IsSpaced p
