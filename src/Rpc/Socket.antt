-- ===== src/Rpc/Socket.antt =====
-- internal/api, ws.go and ws_push.go: JSON-RPC over a websocket. A message is given with the instant at
-- which it is answered; the connection itself, and its errors, are not modelled.
use sounding.Prelude.{◌*◌, none, some, List, [], ◌∷◌, Text, bytes}
use sounding.Clock.{Time, Duration, second}
use sounding.Contract.{Client, NodeStatus}
use sounding.Store.Db.{Db, M, ◌>>=◌, done}
use sounding.Store.Nodes.{nodes}
use sounding.Store.Status.{latest_status}
use sounding.Rpc.Types.{Handler, RpcResponse}
use sounding.Rpc.Dispatch.{dispatch}

-- The loop of `ServeWS`: a message that is no request gets no answer.
unfoldable pub serve_ws : Handler → List (Time × Text) → Db → List RpcResponse × Db
serve_ws h [] db = ([], db)
serve_ws h ((now, msg) ∷ msgs) db = elim (h.decoders.request msg) [
  | none ↦ serve_ws h msgs db
  | some req ↦
      let (resp, db') = dispatch (record h { now = now }) req db in
      let (resps, db'') = serve_ws h msgs db' in (resp ∷ resps, db'')
]

abbrev pub push_interval : Duration
push_interval = 3 * second

-- The message of a tick.
pub record Push : Type 0 where
  pub method : Text
  pub statuses : List NodeStatus
  pub nodes : List Client
  pub time : Text

-- A tick of `serveWSPush`; after an error nothing is sent.
unfoldable pub push_tick : Handler → M Push
push_tick h = do
  statuses ← latest_status h.zone h.now
  ns ← nodes
  done (record {
    method = bytes "sounding.push";
    statuses = statuses;
    nodes = ns;
    time = h.zone.format_time h.now;
  })
