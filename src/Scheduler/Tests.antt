-- ===== src/Scheduler/Tests.antt =====
-- Examples of the theorems on the scheduler.
use sounding.Prelude.{
  ◌*◌, ◌≡◌, refl, true, List, [], ◌∷◌, bytes, same, map, sort_by, leb_text, lookup, insert,
}
use sounding.Clock.{Time, second, minute}
use sounding.Store.Db.{Db}
use sounding.Store.Probes.{probe_tasks, probe_clients, client_list}
use sounding.Scheduler.{Run, loop}
use sounding.Scheduler.Spacing.{IsSpaced, loop-IsSpaced}
use sounding.Decimal.{decimal}
use sounding.Samples.{db, task}

-- One enabled task of "n1" with an interval of five minutes.
abbrev active : Db
active = record db { probe_tasks = record (task 1 (bytes "n1") (bytes "dns")) { enabled = 1 } ∷ [] }

abbrev ticks : List (Time × Db)
ticks = (0, active) ∷ (3 * second, active) ∷ (5 * minute, active) ∷ []

loop_times : map (λ (r : Run). r.at) (loop [] ticks []) ≡ 0 ∷ 5 * minute ∷ []
unfolding loop bytes same probe_clients client_list sort_by leb_text probe_tasks lookup insert
    decimal
loop_times = refl

loop-IsSpaced_example : IsSpaced (loop [] ticks [])
loop-IsSpaced_example = loop-IsSpaced [] ticks []

abbrev run : Run
run = record {
  client = bytes "n1";
  task = record {
    id = 1;
    target = bytes "1.1.1.1";
    type = bytes "icmp";
    name = bytes "dns";
    interval = minute;
    enabled = true;
  };
  at = 0;
}
