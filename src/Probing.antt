-- ===== src/Probing.antt =====
-- internal/probe: probe.go, icmp.go and types.go, one probe of a target. Sockets, name resolution and HTTP are
-- parameters; a call that measures gives the microseconds it took, which are thousandths of the milliseconds of
-- a value.
pub mod Address
pub mod AddressLaws
pub mod Laws
mod Tests
use sounding.Prelude.{
  ℕ, ◌+◌, ◌-◌, ◌*◌, ◌/◌, Bool, true, false, ◌&&◌, ◌||◌, not, Option, none, some, List, [], ◌∷◌,
  ◌++◌, Text, bytes, same, is_empty, ltb, leb, if◌then◌else◌, Float, float, pos, minus_one, Result,
  ok, err,
}
use sounding.Decimal.{decimal}
use sounding.Strings.{to_lower, cut_at, strip}
use sounding.Clock.{Time, Zone}
use sounding.Store.Db.{Db}
use sounding.Scheduler.{Run, record_result}
use sounding.Probing.Address.{split_host_port, join_host_port}

-- A message that an ICMP socket reads: one that does not parse, or one that may be an echo reply, after so many
-- microseconds.
pub data Packet : Type 0 where
  garbage : Packet
  message : Bool → ℕ → Packet
  cancelled : Text → Packet
  unread : Text → Packet

pub record Network : Type 0 where
  pub parse_ip : Text → Option Text
  pub lookup_ip : Text → Result (List Text)
  pub listen : Text → Result (Unit {0})
  pub marshal : Result (Unit {0})
  pub write_to : Text → Result (Unit {0})
  pub packets : Text → List Packet
  pub dial : Text → Result ℕ
  pub new_request : Text → Result (Unit {0})
  pub get : Text → ℕ × Result ℕ
  pub lookup_host : Text → Text → ℕ × Result (List Text)

pub record Outcome : Type 0 where
  pub type : Text
  pub value : Float
  pub ok : Bool
  pub detail : Text

-- `TCPPing`
unfoldable pub tcp_ping : Network → Text → Result Float
tcp_ping n target = elim (n.dial target) [ err e ↦ err e | ok us ↦ ok (pos us) ]

-- The loop over the packets; when no more arrive, the deadline of three seconds ends it.
unfoldable pub await_reply : List Packet → Result Float
await_reply [] = err (bytes "i/o timeout")
await_reply (Packet.cancelled e ∷ ps) = err e
await_reply (Packet.unread e ∷ ps) = err e
await_reply (Packet.garbage ∷ ps) = await_reply ps
await_reply (Packet.message true us ∷ ps) = ok (pos us)
await_reply (Packet.message false us ∷ ps) = await_reply ps

-- The address that is asked, or the error of the name's resolution.
unfoldable pub resolve : Network → Text → Result Text
resolve n target = elim (n.parse_ip target) [
  | some ip ↦ ok ip
  | none ↦ elim (n.lookup_ip target) [
    | err e ↦ err (bytes "resolve " ++ target ++ bytes ": " ++ e)
    | ok [] ↦ err (bytes "resolve " ++ target)
    | ok (ip ∷ ips) ↦ ok ip
  ]
]

-- A socket without privileges, or else a raw one.
unfoldable pub open_socket : Network → Result (Unit {0})
open_socket n = elim (n.listen (bytes "udp4")) [
  | ok _ ↦ ok tt
  | err e ↦ elim (n.listen (bytes "ip4:icmp")) [
    | ok _ ↦ ok tt
    | err e' ↦ err (bytes "icmp listen: " ++ e')
  ]
]

-- `ICMPPing`
unfoldable pub icmp_ping : Network → Text → Result Float
unfolding resolve open_socket await_reply
icmp_ping n target = elim (resolve n target) [
  | err e ↦ err e
  | ok ip ↦ elim (open_socket n) [
    | err e ↦ err e
    | ok _ ↦ elim n.marshal [
      | err e ↦ err e
      | ok _ ↦ elim (n.write_to ip) [ err e ↦ err e | ok _ ↦ await_reply (n.packets ip) ]
    ]
  ]
]

-- `host := target; if h, _, err := net.SplitHostPort(target); err == nil { host = h }`
unfoldable pub host_of : Text → Text
host_of target = elim (split_host_port target) [ none ↦ target | some (host, port) ↦ host ]

-- An address, or a host that the port is added to.
unfoldable pub with_port : Text → Text → Text → Text
with_port target host port = elim (split_host_port target) [
  | none ↦ join_host_port host port
  | some a ↦ target
]

-- `Ping`: the value, or the error, and the kind.
unfoldable pub ping : Network → Text → Result Float × Text
unfolding icmp_ping host_of with_port tcp_ping
ping n target = elim (icmp_ping n (host_of target)) [
  | ok ms ↦ (ok ms, bytes "icmp")
  | err e ↦ (tcp_ping n (with_port target (host_of target) (bytes "443")), bytes "tcp")
]

unfoldable pub missed : Text → Text → Outcome
missed kind detail = record { type = kind; value = minus_one; ok = false; detail = detail }

unfoldable pub measured : Text → Float → Text → Outcome
measured kind ms detail = record { type = kind; value = ms; ok = true; detail = detail }

-- A measurement or an error, as a result.
unfoldable pub outcome_of : Text → Result Float → Outcome
unfolding missed measured
outcome_of kind (ok ms) = measured kind ms []
outcome_of kind (err e) = missed kind e

unfoldable pub run_tcp : Network → Text → Outcome
unfolding with_port tcp_ping outcome_of
run_tcp n target = outcome_of (bytes "tcp") (tcp_ping n (with_port target target (bytes "443")))

abbrev has_prefix : Text → Text → Bool
has_prefix p s = elim (strip p s) [ none ↦ false | some r ↦ true ]

-- A target without a scheme is asked over https.
unfoldable pub url_of : Text → Text
url_of target =
    if has_prefix (bytes "http://") target || has_prefix (bytes "https://") target
    then target
    else bytes "https://" ++ target

-- The answer's status decides; the time is kept for a status that is an error, too.
unfoldable pub http_outcome : ℕ × Result ℕ → Outcome
unfolding missed
http_outcome (us, err e) = missed (bytes "http") e
http_outcome (us, ok status) = record {
  type = bytes "http";
  value = pos us;
  ok = ltb status 400;
  detail = bytes "HTTP " ++ decimal status;
}

unfoldable pub run_http : Network → Text → Outcome
unfolding url_of http_outcome missed
run_http n target = elim (n.new_request (url_of target)) [
  | err e ↦ missed (bytes "http") e
  | ok _ ↦ http_outcome (n.get (url_of target))
]

-- The name and the server of `name@server`; without a name before the sign there is no server.
unfoldable pub dns_parts : Text → Text × Text
dns_parts target = elim (cut_at b'@' target) [
  | none ↦ (target, [])
  | some (host, server) ↦ if is_empty host then (target, []) else (host, server)
]

unfoldable pub dns_server : Text → Text
unfolding with_port
dns_server server = if is_empty server then [] else with_port server server (bytes "53")

unfoldable pub dns_outcome : ℕ × Result (List Text) → Outcome
unfolding missed measured
dns_outcome (us, err e) = missed (bytes "dns") (bytes "解析失败")
dns_outcome (us, ok []) = missed (bytes "dns") (bytes "解析失败")
dns_outcome (us, ok (ip ∷ ips)) = measured (bytes "dns") (pos us) ip

unfoldable pub run_dns : Network → Text → Outcome
unfolding dns_parts dns_server dns_outcome
run_dns n target =
    let (host, server) = dns_parts target in dns_outcome (n.lookup_host (dns_server server) host)

unfoldable pub run_ping : Network → Text → Outcome
unfolding ping outcome_of
run_ping n target = let (r, kind) = ping n target in outcome_of kind r

-- `Run`
unfoldable pub run : Network → Text → Text → Outcome
unfolding run_http run_dns run_tcp run_ping
run n typ target =
    let kind = to_lower typ in
    if same kind (bytes "http") || same kind (bytes "https")
    then run_http n target
    else if same kind (bytes "dns")
    then run_dns n target
    else if same kind (bytes "tcp")
    then run_tcp n target
    else run_ping n target

-- `Scheduler.run`: one probe of a task, and its record.
unfoldable pub run_task : Network → Zone → Time → Run → Db → Db
unfolding run
run_task n z now r db =
    let res = run n r.task.type r.task.target in record_result z now r res.ok res.value db
