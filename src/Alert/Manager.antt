-- ===== src/Alert/Manager.antt =====
-- internal/alert/alert.go: the manager, `Evaluate` and the titles of notifications. The readings of
-- the clock within one call are one instant.
use sounding.Prelude.{
  ◌-◌, ◌*◌, Bool, false, ◌||◌, ◌&&◌, none, some, List, [], ◌∷◌, ◌++◌, map, Text, bytes, ltb,
  if◌then◌else◌, find_first, same, Float, leb_float, lookup, insert,
}
use sounding.Clock.{Time, Duration, Zone, minute}
use sounding.Notify.{Message, Notifier}
use sounding.Alert.Rules.{Rule, silenced, set_rule, delete_rule}

pub record Event : Type 0 where
  pub kind : Text
  pub node : Text
  pub node_name : Text
  pub value : Float
  pub threshold : Float
  pub message : Text
  pub time : Text

pub record Manager : Type 0 where
  pub rules : List Rule
  pub last_sent : List (Text × Time)
  pub cooldown : Duration
  pub notifiers : List Notifier

unfoldable pub new_manager : List Rule → List Notifier → Duration → Manager
new_manager rules notifiers cooldown = record {
  rules = rules;
  last_sent = [];
  cooldown = if ltb 0 cooldown then cooldown else 5 * minute;
  notifiers = notifiers;
}

-- `Manager.SetRule` and `Manager.DeleteRule`
unfoldable pub manager_set : Rule → Manager → Manager
manager_set r m = record m { rules = set_rule r m.rules }

unfoldable pub manager_delete : Text → Text → Manager → Manager
manager_delete kind node m = record m { rules = delete_rule kind node m.rules }

unfoldable pub title : Event → Text
title ev =
    if same ev.kind (bytes "offline")
    then bytes "🔴 节点离线 · " ++ ev.node_name
    else if same ev.kind (bytes "latency")
    then bytes "🟡 延迟告警 · " ++ ev.node_name
    else if same ev.kind (bytes "loss")
    then bytes "🔴 探测丢包 · " ++ ev.node_name
    else bytes "告警 · " ++ ev.node_name

unfoldable pub message_of : Event → Message
message_of ev = record {
  title = title ev;
  body = ev.message;
  level = if same ev.kind (bytes "offline") then bytes "critical" else bytes "warning";
}

-- The key of `lastSent`.
unfoldable pub event_key : Event → Text
event_key ev = ev.kind ++ b'|' ∷ ev.node

-- The test of the loop over the rules.
unfoldable pub matches : Event → Rule → Bool
matches ev r =
    same r.kind ev.kind
    && (same r.node (bytes "*") || same r.node ev.node)
    && leb_float r.threshold ev.value

-- `t, ok := m.lastSent[key]; ok && time.Since(t) < m.cooldown`
unfoldable pub is_cooling : Time → Text → Manager → Bool
is_cooling now key m = elim (lookup key m.last_sent) [
  | none ↦ false
  | some t ↦ ltb (now - t) m.cooldown
]

-- What follows when a rule that is not silenced has matched.
unfoldable pub deliver :
    Time → Event → List Notifier → Manager → Manager × List (Notifier × Message)
deliver now ev [] m = (m, [])
deliver now ev (n ∷ ns) m = (
  record m { last_sent = insert (event_key ev) now m.last_sent },
  map (λ c. (c, message_of ev)) (n ∷ ns),
)

-- `Evaluate`: the new state, and the message for each channel, in the order of sending.
unfoldable pub evaluate : Zone → Time → Event → Manager → Manager × List (Notifier × Message)
unfolding is_cooling deliver
evaluate z now ev m =
    if is_cooling now (event_key ev) m then (m, []) else elim (find_first (matches ev) m.rules) [
      | none ↦ (m, [])
      | some r ↦
          if silenced z now r
          then (m, [])
          else deliver now (record ev { threshold = r.threshold }) m.notifiers m
    ]
