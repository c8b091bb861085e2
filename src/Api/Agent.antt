-- ===== src/Api/Agent.antt =====
-- internal/api/agent.go: an agent's report.
use sounding.Prelude.{
  Bool, true, not, ◌||◌, ◌&&◌, Option, none, some, List, [], ◌∷◌, ◌++◌, Text, bytes, same, is_empty,
  or_else, if◌then◌else◌, float, Result, ok, err,
}
use sounding.Contract.{AgentPayload, ProbeTarget}
use sounding.Store.Db.{Db}
use sounding.Store.Nodes.{upsert_node}
use sounding.Store.Records.{insert_status}
use sounding.Store.Probes.{upsert_probe_task}
use sounding.Api.{Env, Request, Response, refused, answered, Answer}

-- The loop over the reported targets; errors of the upserts are ignored.
unfoldable pub upsert_targets : Text → List ProbeTarget → Db → Db
upsert_targets uuid [] db = db
upsert_targets uuid (p ∷ ps) db = upsert_targets uuid ps (
    if is_empty p.name || is_empty p.host
    then db
    else (upsert_probe_task uuid p.host p.name (or_else p.type (bytes "icmp")) (float 60) true
        db).1)

unfoldable pub with_status : Env → AgentPayload → Result (Unit {0}) × Db → Response × Db
unfolding upsert_targets
with_status env p (err e, db) = (refused 500 (bytes "insert: " ++ e), db)
with_status env p (ok _, db) = (answered Answer.done, upsert_targets p.uuid p.probes db)

unfoldable pub with_node : Env → AgentPayload → Result (Unit {0}) × Db → Response × Db
unfolding with_status
with_node env p (err e, db) = (refused 500 (bytes "upsert: " ++ e), db)
with_node env p (ok _, db) = with_status env p (insert_status env.zone env.now p.uuid p.status db)

-- What follows when the payload is decoded: the node, its status, and its probe targets.
unfoldable pub record_payload : Env → AgentPayload → Db → Response × Db
unfolding with_node
record_payload env p db = with_node env p (upsert_node env.json p.uuid p.name p.os_info db)

unfoldable pub decoded : Env → Option AgentPayload → Db → Response × Db
unfolding record_payload
decoded env none db = (refused 400 (bytes "bad payload"), db)
decoded env (some p) db = record_payload env p db

-- `h.token != "" && r.Header.Get("X-Auth-Token") != h.token`
unfoldable pub is_stranger : Text → Request → Bool
is_stranger token r = not (is_empty token) && not (same r.auth_token token)

-- `AgentEndpoint.ServeHTTP`, with the endpoint's token.
unfoldable pub agent_serve : Env → Text → Request → Db → Response × Db
unfolding is_stranger decoded
agent_serve env token r db =
    if not (same r.method (bytes "POST"))
    then (refused 405 (bytes "method not allowed"), db)
    else if is_stranger token r
    then (refused 401 (bytes "unauthorized"), db)
    else decoded env (env.decoders.agent_payload r.body) db
