-- ===== src/Api.antt =====
-- internal/api, the HTTP endpoints: what a handler reads of a request and what it answers. The bodies
-- of requests are decoded by parameters, one for each type that encoding/json fills.
use sounding.Prelude.{ℕ, Bool, Option, List, Text, Float}
use sounding.Contract.{Client, NodeStatus, AdminProbe, AgentPayload}
use sounding.Alert.Rules.{Rule}
use sounding.Clock.{Time, Zone}
use sounding.Json.{Json}
use sounding.Auth.{Crypto}
pub mod Agent
pub mod AgentLaws
pub mod Admin
pub mod AdminLaws
pub mod AdminAgreement
pub mod LoginLaws
pub mod Login
mod Tests

pub record Request : Type 0 where
  pub method : Text
  pub path : Text
  pub auth_token : Text
  pub admin_token : Text
  pub authorization : Text
  pub body : Text

-- The body of an answer with status 200.
pub data Answer : Type 0 where
  done : Answer
  nodes : List Client → List NodeStatus → Answer
  rules : List Rule → Answer
  probes : List AdminProbe → Answer
  wrong_login : Answer
  login : Text → ℕ → Answer
  healthy : Answer

-- `http.Error` with a status and a message, or an answer.
pub data Response : Type 0 where
  refused : ℕ → Text → Response
  answered : Answer → Response

-- The body of POST /api/admin/probes; `enabled` may be missing.
pub record ProbeForm : Type 0 where
  pub client : Text
  pub target : Text
  pub name : Text
  pub type : Text
  pub interval_sec : Float
  pub enabled : Option Bool

-- `json.NewDecoder(r.Body).Decode` for the types of the handlers.
pub record Decoders : Type 0 where
  pub agent_payload : Text → Option AgentPayload
  pub client : Text → Option Client
  pub uuid : Text → Option Text
  pub rule : Text → Option Rule
  pub rule_key : Text → Option (Text × Text)
  pub probe_form : Text → Option ProbeForm
  pub probe_key : Text → Option (Text × Text)
  pub credentials : Text → Option (Text × Text)

-- What a handler takes from outside of the repository: the clock is read once in a request.
pub record Env : Type 0 where
  pub zone : Zone
  pub now : Time
  pub json : Json
  pub crypto : Crypto
  pub decoders : Decoders
