-- ===== src/Agent/ReportLaws.antt =====
-- cmd/agent/main.go: what the reports hold.
use sounding.Prelude.{◌≡◌, true, ◌++◌, map, List, Text, some, All}
use sounding.Contract.{ProbeTarget}
use sounding.Collector.{Collector}
use sounding.Agent.Probes.{RemoteTask}
use sounding.Agent.Config.{resolve_probes, reported_targets}
use sounding.Agent.Parsed.{HasDistinctTargets}
use sounding.Agent.Plain.{IsPlain, task_target}
use sounding.Agent.RoundTrip.{parse_probes-append}
use sounding.Agent.Report.{fetch_remote_probes, Agent, Tick, report, refreshed}

-- If an agent asks the server for its probes and the answer is 200 with tasks whose names and targets are trimmed
-- and hold no comma, whose names hold no colon, whose types are known, and no two of which have the same name and
-- target, then the next report has these tasks first and in their order, whatever probes the agent
-- has of its own or had from the server before.
pub report-remote_tasks :
    (a : Agent) (t : Tick) (ts : List RemoteTask) (remote : Text) (c : Collector)
    → a.remote_config ≡ true
    → t.answer ≡ some (record { status = 200; tasks = some ts })
    → All IsPlain ts
    → HasDistinctTargets (map task_target ts)
    → (own : List ProbeTarget) × ((report a t (refreshed a t remote) c).0.probes
        ≡ map task_target ts ++ own)
unfolding report refreshed fetch_remote_probes reported_targets
report-remote_tasks a t ts remote c asks answered plain distinct =
    rw (asks, answered)
      (parse_probes-append ts (resolve_probes a.flags a.env t.config) plain distinct)
