-- ===== src/Server/Pipeline.antt =====
-- cmd/agent and cmd/server: the tasks that the server hands out, through an agent's report back to its table.
use sounding.Prelude.{
  ◌≡◌, sym, ap, ◌∙◌, Bool, true, false, any, map, List, [], ◌∷◌, ◌++◌, Text, bytes, some, All, same,
  arith,
}
use sounding.Contract.{AgentPayload, ProbeTarget}
use sounding.Collector.{Collector}
use sounding.Agent.Probes.{RemoteTask}
use sounding.Agent.Parsed.{HasDistinctTargets}
use sounding.Agent.Plain.{IsPlain, task_target, trimmed-filled}
use sounding.Agent.Report.{Agent, Tick, report, refreshed}
use sounding.Agent.ReportLaws.{report-remote_tasks}
use sounding.Store.Db.{Db, TaskRow}
use sounding.Store.ProbeLaws.{task_named}
use sounding.Api.{Env, Request}
use sounding.Api.Agent.{agent_serve, is_stranger}
use sounding.Api.AgentLaws.{mentions, agent_serve-records}

abbrev pub is_called : Text → RemoteTask → Bool
is_called n t = same t.name n

-- A plain task is a target that the server takes.
any-mentions :
    (n : Text) (ts : List RemoteTask) (own : List ProbeTarget)
    → All IsPlain ts
    → any (is_called n) ts ≡ true
    → any (mentions n) (map task_target ts ++ own) ≡ true
any-mentions n [] own plain h = cc
any-mentions n (t ∷ ts) own (p, plain) h =
    rw (trimmed-filled t.name p.trimmed_name, trimmed-filled t.target p.trimmed_target)
      (ground (arith, any-mentions n ts own plain))

-- Say an agent asks the server for its probes and is answered 200 with tasks whose names and targets are trimmed
-- and hold no comma, whose names hold no colon, whose types are known, and no two of which have the same name and
-- target; and its next report, whose sender is let through, reaches a server whose database works. Then, for the
-- name of each of these tasks, the server has a row of the agent's uuid that is enabled.
pub agent_serve-remote_tasks :
    (env : Env) (token : Text) (r : Request) (p : AgentPayload) (n : Text) (db : Db) (a : Agent)
    (t : Tick) (ts : List RemoteTask) (remote : Text) (c : Collector)
    → a.remote_config ≡ true
    → t.answer ≡ some (record { status = 200; tasks = some ts })
    → All IsPlain ts
    → HasDistinctTargets (map task_target ts)
    → p.uuid ≡ a.uuid
    → p.probes ≡ (report a t (refreshed a t remote) c).0.probes
    → db.faults ≡ []
    → same r.method (bytes "POST") ≡ true
    → is_stranger token r ≡ false
    → env.decoders.agent_payload r.body ≡ some p
    → any (is_called n) ts ≡ true
    → (row : TaskRow) × (task_named a.uuid n (agent_serve env token r db).1 ≡ some row)
      × (row.enabled ≡ 1)
agent_serve-remote_tasks env token r p n db a t ts remote c asks answered plain distinct own_uuid
      sent works post known good named =
    let (own, e) = report-remote_tasks a t ts remote c asks answered plain distinct in
    let mentioned = ap (any (mentions n)) (sent ∙ e) ∙ any-mentions n ts own plain named in
    let (done, appended, row, found, on) =
      agent_serve-records env token r p n db works post known good mentioned in
    (row, ap (λ u. task_named u n (agent_serve env token r db).1) (sym own_uuid) ∙ found, on)
