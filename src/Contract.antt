-- ===== src/Contract.antt =====
-- The types of internal/api that the parts exchange: contract.go, rpc.go, agent.go and admin.go.
use sounding.Arithmetic.{Computed}
use sounding.Prelude.{ℕ, Bool, List, Text, Float}

pub record Client : Type 0 where
  pub uuid : Text
  pub name : Text
  pub cpu_name : Text
  pub virtualization : Text
  pub arch : Text
  pub cpu_cores : Float
  pub os : Text
  pub kernel_version : Text
  pub region : Text
  pub public_remark : Text
  pub mem_total : Float
  pub swap_total : Float
  pub disk_total : Float
  pub weight : Float
  pub price : Float
  pub billing_cycle : Float
  pub auto_renewal : Bool
  pub currency : Text
  pub expired_at : Text
  pub group : Text
  pub groups : List Text
  pub tags : Text
  pub hidden : Bool

pub record NodeStatusPing : Type 0 where
  pub name : Text
  pub latest : Float
  pub avg : Computed
  pub tail : Float
  pub loss : Computed
  pub min : Float
  pub max : Float

pub record AgentStatus : Type 0 where
  pub cpu : Float
  pub ram : Float
  pub swap : Float
  pub load : Float
  pub disk : Float
  pub net_in : Float
  pub net_out : Float
  pub net_total_up : Float
  pub net_total_down : Float
  pub process : Float
  pub connections : Float
  pub connections_udp : Float
  pub temp : Float
  pub load5 : Float
  pub load15 : Float
  pub ram_total : Float
  pub swap_total : Float
  pub disk_total : Float
  pub uptime : Float

pub record StatusRecord : Type 0 where
  pub client : Text
  pub time : Text
  pub cpu : Float
  pub ram : Float
  pub swap : Float
  pub load : Float
  pub load5 : Float
  pub load15 : Float
  pub temp : Float
  pub disk : Float
  pub net_in : Float
  pub net_out : Float
  pub net_total_up : Float
  pub net_total_down : Float
  pub process : Float
  pub connections : Float
  pub connections_udp : Float
  pub ram_total : Float
  pub swap_total : Float
  pub disk_total : Float

pub record NodeStatus : Type 0 where
  pub client : Text
  pub time : Text
  pub cpu : Float
  pub gpu : Float
  pub ram : Float
  pub ram_total : Float
  pub swap : Float
  pub swap_total : Float
  pub load : Float
  pub load5 : Float
  pub load15 : Float
  pub temp : Float
  pub disk : Float
  pub disk_total : Float
  pub net_in : Float
  pub net_out : Float
  pub net_total_up : Float
  pub net_total_down : Float
  pub process : Float
  pub connections : Float
  pub connections_udp : Float
  pub online : Bool
  pub uptime : Float
  pub ping : List (Text × NodeStatusPing)

pub record PingRecord : Type 0 where
  pub client : Text
  pub task_id : ℕ
  pub time : Text
  pub value : Float

pub record AdminProbe : Type 0 where
  pub id : ℕ
  pub client : Text
  pub target : Text
  pub name : Text
  pub type : Text
  pub interval_sec : Float
  pub enabled : Bool

-- An agent's report: agent.go.
pub record ProbeTarget : Type 0 where
  pub name : Text
  pub host : Text
  pub type : Text

pub record AgentPayload : Type 0 where
  pub uuid : Text
  pub name : Text
  pub time : Text
  pub os_info : Text
  pub status : AgentStatus
  pub probes : List ProbeTarget
