-- ===== src/Probing/Tests.antt =====
-- Examples of the theorems on probes.
use sounding.Prelude.{
  ◌≡◌, refl, true, not, some, [], ◌∷◌, ◌++◌, Text, bytes, utf8, Float, is_negative, ok, err,
}
use sounding.Scheduler.{Run}
use sounding.Store.Probes.{task_of, interval_of}
use sounding.Probing.{Network, Packet, run, run_task}
use sounding.Probing.Laws.{run_task-records}
use sounding.Probing.AddressLaws.{IsHost, IsPort}
use sounding.Samples.{zone, db, task}

-- Pings are refused, HTTP answers 503, and a dial takes 12 ms.
abbrev network : Network
network = record {
  parse_ip = λ s. some s;
  lookup_ip = λ s. ok [];
  listen = λ s. err (bytes "operation not permitted");
  marshal = ok tt;
  write_to = λ s. ok tt;
  packets = λ s. Packet.garbage ∷ Packet.message true 5 ∷ [];
  dial = λ s. ok 12_000;
  new_request = λ s. ok tt;
  get = λ s. (7_000, ok 503);
  lookup_host = λ server host. (1, err []);
}

abbrev run_of_task : Run
run_of_task = record {
  client = bytes "n1";
  task = task_of (task 1 (bytes "n1") (bytes "dns"));
  at = 0;
}

run_task-records_example :
    (v : Float) × (run_task network zone 0 run_of_task db ≡ record db {
      probe_records =
          db.probe_records
          ++ record { client = bytes "n1"; task_id = 1; time = 0 ∷ []; value = v } ∷ [];
    })
    × (is_negative v ≡ not (run network run_of_task.task.type run_of_task.task.target).ok)
unfolding task_of interval_of
run_task-records_example = run_task-records network zone 0 run_of_task db refl

abbrev loopback : Text
loopback = bytes "::1"

loopback-IsHost : IsHost loopback
unfolding bytes utf8
loopback-IsHost = (refl, refl)

https-IsPort : IsPort (bytes "443")
unfolding bytes utf8
https-IsPort = (refl, refl, refl)
