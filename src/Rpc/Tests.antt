-- ===== src/Rpc/Tests.antt =====
-- Examples of the theorems on JSON-RPC.
use sounding.Prelude.{
  ◌≡◌, refl, true, none, some, List, [], ◌∷◌, utf8, bytes, same, lookup, float, pos, minus_one,
  arith, sort_by, add_float, All,
}
use sounding.Arithmetic.{Computed, Arith, exact, plus, minus, times, over, root_of}
use sounding.Json.{Value}
use sounding.Contract.{PingRecord, AdminProbe}
use sounding.Strings.{after_last}
use sounding.Stats.{spread}
use sounding.Store.Db.{Db}
use sounding.Store.Reads.{SameTables}
use sounding.Rpc.Tasks.{infos_of, task_stats}
use sounding.Rpc.TaskLaws.{IsSummary, infos_of-IsSummary}
use sounding.Rpc.Metrics.{latency_series, loss_series}
use sounding.Rpc.MetricLaws.{WholeSums, IsAgreed, task_series-IsAgreed}
use sounding.Rpc.Records.{any_to_int}
use sounding.Rpc.Numbers.{any_to_int-task_stats}
use sounding.Rpc.Dispatch.{
  KomariMethod, methods, komari_methods, listed_methods, method_of, dispatch, rpc_serve,
  unknown_method,
}
use sounding.Rpc.DispatchLaws.{
  IsAnswered, rpc_serve-SameTables, dispatch-hides_errors, dispatch-listed,
}
use sounding.Samples.{rpc_request, handler, db, probe, agent_status}

-- A database with a status, and one whose next statement fails.
abbrev kept : Db
kept = record db {
  status_history = record { client = bytes "n1"; time = 5 ∷ []; status = agent_status } ∷ [];
}

abbrev broken : Db
broken = record db { faults = some (bytes "locked") ∷ [] }

abbrev admin_probe : AdminProbe
admin_probe = record {
  id = 1;
  client = bytes "*";
  target = bytes "1.1.1.1";
  name = bytes "dns";
  type = bytes "icmp";
  interval_sec = float 60;
  enabled = true;
}

abbrev tasks : List AdminProbe
tasks = admin_probe ∷ []

abbrev recs : List PingRecord
recs =
    probe (bytes "n1") 1 (float 5)
    ∷ probe (bytes "n1") 2 minus_one
    ∷ probe (bytes "n2") 3 (float 8)
    ∷ []

abbrev mean_of_two : Computed
mean_of_two =
    over (plus (plus (exact (pos 0)) (exact (float 5))) (exact (float 8))) (exact (float 2))

spread_of_two : spread (float 5 ∷ float 8 ∷ []) ≡ record {
  min = float 5;
  max = float 8;
  avg = mean_of_two;
  stddev = root_of (
      over
        (plus
          (plus
            (exact (pos 0))
            (times (minus (exact (float 5)) mean_of_two) (minus (exact (float 5)) mean_of_two)))
          (times (minus (exact (float 8)) mean_of_two) (minus (exact (float 8)) mean_of_two)))
        (exact (float 2)));
  p50 = float 5;
  p99 = float 8;
  ratio = over (exact (float 8)) (exact (float 5));
}
unfolding spread sort_by
spread_of_two = refl

rpc_serve-SameTables_example : SameTables broken (rpc_serve handler [] broken).1
rpc_serve-SameTables_example = rpc_serve-SameTables handler [] broken

method_of_request : method_of rpc_request.method ≡ bytes "queryMetrics"
unfolding method_of after_last bytes utf8
method_of_request = refl

no_method : lookup (method_of rpc_request.method) methods ≡ none
unfolding method_of after_last bytes utf8 lookup methods same
no_method = refl

komari_method :
    lookup (method_of rpc_request.method) komari_methods ≡ some KomariMethod.query_metrics
unfolding method_of after_last bytes utf8 lookup komari_methods same
komari_method = refl

dispatch-hides_errors_example : (dispatch handler rpc_request broken).0 ≡ unknown_method rpc_request
dispatch-hides_errors_example =
    dispatch-hides_errors handler rpc_request broken KomariMethod.query_metrics (bytes "locked") []
      no_method komari_method refl refl

dispatch-listed_example :
    All
      (λ name.
        IsAnswered handler kept (record rpc_request { method = name })
        × IsAnswered handler kept (record rpc_request { method = b'r' ∷ b':' ∷ name }))
      listed_methods
dispatch-listed_example = dispatch-listed handler kept rpc_request (b'r' ∷ []) refl

infos_of-IsSummary_example : All IsSummary (infos_of (bytes "n1") tasks recs)
infos_of-IsSummary_example = infos_of-IsSummary (bytes "n1") tasks recs

-- An arithmetic whose sums are exact.
abbrev exact_sums : Arith
exact_sums = record {
  add = add_float;
  subtract = λ a b. a;
  multiply = λ a b. a;
  divide = λ a b. a;
  sqrt = λ a. a;
}

exact_sums-WholeSums : WholeSums exact_sums
unfolding add_float
exact_sums-WholeSums = record { whole_sum = λ m n h. ground arith }

task_series-IsAgreed_example :
    IsAgreed exact_sums
      (latency_series [] 1 recs)
      (loss_series [] 1 recs)
      (task_stats [] tasks 1 recs)
task_series-IsAgreed_example =
    task_series-IsAgreed exact_sums [] tasks 1 recs exact_sums-WholeSums (omega arith)

any_to_int-task_stats_example :
    any_to_int (Value.text (task_stats [] tasks 205 recs).task_id) ≡ pos 205
any_to_int-task_stats_example = any_to_int-task_stats [] tasks 205 recs (omega arith)
