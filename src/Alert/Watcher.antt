-- ===== src/Alert/Watcher.antt =====
-- internal/alert/watcher.go: the events of one round of `Watch`. A round takes the instant of its
-- tick, and a map of pings as a list of its entries, in the order of the iteration.
use sounding.Arithmetic.{Computed}
use sounding.Prelude.{
  Bool, Option, none, some, List, [], ◌∷◌, ◌++◌, map, Text, bytes, if◌then◌else◌, Float, pos, float,
  is_negative,
}
use sounding.Clock.{Time, Zone}
use sounding.Notify.{Message, Notifier}
use sounding.Alert.Manager.{Event, Manager, evaluate}

pub record Snapshot : Type 0 where
  pub uuid : Text
  pub name : Text
  pub online : Bool
  pub last_seen : Option Time
  pub ping : List (Text × Float)
  pub loss : List (Text × Computed)

event : Text → Snapshot → Float → Text → Event
event kind s value message = record {
  kind = kind;
  node = s.uuid;
  node_name = s.name;
  value = value;
  threshold = pos 0;
  message = message;
  time = [];
}

unfoldable pub ping_event : Snapshot → Text × Float → Event
unfolding event
ping_event s (name, ms) =
    if is_negative ms
    then event (bytes "loss") s (float 100) (bytes "探测丢包: " ++ name)
    else event (bytes "latency") s ms (bytes "延迟偏高: " ++ name)

-- The events of one snapshot, in their order.
unfoldable pub snapshot_events : Snapshot → List Event
unfolding ping_event event
snapshot_events s =
    (if s.online then [] else event (bytes "offline") s (float 1) (bytes "节点离线") ∷ [])
    ++ map (ping_event s) s.ping

-- `Evaluate` on each event in turn.
unfoldable pub evaluate_all :
    Zone → Time → List Event → Manager → Manager × List (Notifier × Message)
evaluate_all z now [] m = (m, [])
evaluate_all z now (ev ∷ evs) m =
    let (m', sent) = evaluate z now ev m in
    let (m'', later) = evaluate_all z now evs m' in (m'', sent ++ later)

unfoldable pub snapshots_events : List Snapshot → List Event
unfolding snapshot_events
snapshots_events [] = []
snapshots_events (s ∷ snaps) = snapshot_events s ++ snapshots_events snaps

-- One round; `none` is an error of `AlertSnapshots`.
unfoldable pub watch_round :
    Zone → Time → Option (List Snapshot) → Manager → Manager × List (Notifier × Message)
unfolding evaluate_all snapshots_events
watch_round z now none m = (m, [])
watch_round z now (some snaps) m = evaluate_all z now (snapshots_events snaps) m
