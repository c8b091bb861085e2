-- ===== src/Probing/Laws.antt =====
-- internal/probe/types.go: what the value of a probe says.
use sounding.Prelude.{
  ℕ, ◌≡◌, refl, true, false, ◌||◌, Bool-cases, ◌⊎◌, inl, inr, List, [], ◌∷◌, ◌++◌, not, Text, bytes,
  same, if◌then◌else◌, Float, pos, minus_one, is_negative, Result, ok, err, Result-cases, ltb,
  arith, ◌≤ℤ◌,
}
use sounding.Strings.{to_lower}
use sounding.Clock.{Time, Zone}
use sounding.Store.Db.{Db, statement}
use sounding.Store.Records.{insert_probe}
use sounding.Scheduler.{Run, record_result}
use sounding.Probing.{
  Network, Outcome, Packet, await_reply, icmp_ping, resolve, open_socket, tcp_ping, ping,
  outcome_of, missed, measured, run_tcp, run_http, run_dns, run_ping, http_outcome, dns_outcome,
  run, run_task, host_of, url_of,
}

-- A measured time is not negative.
abbrev IsTime : Result Float → Type 0
IsTime (ok ms) = pos 0 ≤ℤ ms
IsTime (err e) = Unit

await_reply-IsTime : (ps : List Packet) → IsTime (await_reply ps)
unfolding await_reply
await_reply-IsTime [] = tt
await_reply-IsTime (Packet.cancelled e ∷ ps) = tt
await_reply-IsTime (Packet.unread e ∷ ps) = tt
await_reply-IsTime (Packet.garbage ∷ ps) = await_reply-IsTime ps
await_reply-IsTime (Packet.message true us ∷ ps) = omega arith
await_reply-IsTime (Packet.message false us ∷ ps) = await_reply-IsTime ps

tcp_ping-IsTime : (n : Network) (target : Text) → IsTime (tcp_ping n target)
unfolding tcp_ping
tcp_ping-IsTime n target = elim (Result-cases (n.dial target)) [
  | inl (us, e) ↦ rw (tcp_ping, e) (omega arith)
  | inr (e, p) ↦ rw (tcp_ping, p) tt
]

icmp_ping-IsTime : (n : Network) (target : Text) → IsTime (icmp_ping n target)
unfolding icmp_ping
icmp_ping-IsTime n target = elim (Result-cases (resolve n target)) [
  | inr (e, p) ↦ rw (icmp_ping, p) tt
  | inl (ip, p) ↦ elim (Result-cases (open_socket n)) [
    | inr (e, q) ↦ rw (icmp_ping, p, q) tt
    | inl (_, q) ↦ elim (Result-cases n.marshal) [
      | inr (e, r) ↦ rw (icmp_ping, p, q, r) tt
      | inl (_, r) ↦ elim (Result-cases (n.write_to ip)) [
        | inr (e, w) ↦ rw (icmp_ping, p, q, r, w) tt
        | inl (_, w) ↦ rw (icmp_ping, p, q, r, w) (await_reply-IsTime (n.packets ip))
      ]
    ]
  ]
]

ping-IsTime : (n : Network) (target : Text) → IsTime (ping n target).0
unfolding ping
ping-IsTime n target = elim (Result-cases (icmp_ping n (host_of target))) [
  | inl (ms, p) ↦ rw (ping, p) (rw p at (icmp_ping-IsTime n (host_of target)))
  | inr (e, p) ↦ rw (ping, p) (tcp_ping-IsTime n _)
]

-- A success has a time. A failure has -1, or is that of an HTTP status, with its time.
abbrev pub Fits : Outcome → Type 0
Fits o =
    ((o.ok ≡ true) × (pos 0 ≤ℤ o.value))
    ⊎ ((o.ok ≡ false) × ((o.value ≡ minus_one) ⊎ ((o.type ≡ bytes "http") × (pos 0 ≤ℤ o.value))))

outcome_of-Fits : (kind : Text) (r : Result Float) → IsTime r → Fits (outcome_of kind r)
unfolding outcome_of missed measured
outcome_of-Fits kind (ok ms) h = inl (refl, h)
outcome_of-Fits kind (err e) h = inr (refl, inl refl)

http_outcome-Fits : (a : ℕ × Result ℕ) → Fits (http_outcome a)
unfolding http_outcome missed
http_outcome-Fits (us, err e) = inr (refl, inl refl)
http_outcome-Fits (us, ok status) = elim (Bool-cases (ltb status 400)) [
  | inl fine ↦ inl (fine, omega arith)
  | inr bad ↦ inr (bad, inr (refl, omega arith))
]

dns_outcome-Fits : (a : ℕ × Result (List Text)) → Fits (dns_outcome a)
unfolding dns_outcome missed measured
dns_outcome-Fits (us, err e) = inr (refl, inl refl)
dns_outcome-Fits (us, ok []) = inr (refl, inl refl)
dns_outcome-Fits (us, ok (ip ∷ ips)) = inl (refl, omega arith)

run_http-Fits : (n : Network) (target : Text) → Fits (run_http n target)
unfolding run_http missed
run_http-Fits n target = elim (Result-cases (n.new_request (url_of target))) [
  | inr (e, p) ↦ rw (run_http, p) (inr (refl, inl refl))
  | inl (_, p) ↦ rw (run_http, p) (http_outcome-Fits (n.get (url_of target)))
]

-- Whatever the type and the network, a probe that succeeds has a time that is not negative; one that fails has the
-- value -1, but for an HTTP status of 400 or more, which keeps its time.
pub run-Fits : (n : Network) (typ target : Text) → Fits (run n typ target)
unfolding run run_dns run_tcp run_ping
run-Fits n typ target =
    elim (Bool-cases (same (to_lower typ) (bytes "http") || same (to_lower typ) (bytes "https"))) [
      | inl http ↦ rw http (run_http-Fits n target)
      | inr other ↦ elim (Bool-cases (same (to_lower typ) (bytes "dns"))) [
        | inl dns ↦ rw (other, dns) (dns_outcome-Fits _)
        | inr rest ↦ elim (Bool-cases (same (to_lower typ) (bytes "tcp"))) [
          | inl tcp ↦ rw (other, rest, tcp) (outcome_of-Fits _ _ (tcp_ping-IsTime n _))
          | inr icmp ↦ rw (other, rest, icmp) (outcome_of-Fits _ _ (ping-IsTime n target))
        ]
      ]
    ]

recorded : (o : Outcome) → Fits o → is_negative (if o.ok then o.value else minus_one) ≡ not o.ok
recorded o (inl (fine, h)) = rw fine (ground arith)
recorded o (inr (failed, h)) = rw failed refl

-- On a database that works, one probe of a task adds one record and changes nothing else: it is the client's and the task's, at
-- the time of the insert, and its value is negative exactly if the probe failed.
pub run_task-records :
    (n : Network) (z : Zone) (now : Time) (r : Run) (db : Db)
    → db.faults ≡ []
    → (v : Float) × (run_task n z now r db ≡ record db {
      probe_records =
          db.probe_records
          ++ record { client = r.client; task_id = r.task.id; time = z.format_time now; value = v }
            ∷ [];
    })
      × (is_negative v ≡ not (run n r.task.type r.task.target).ok)
unfolding run_task record_result insert_probe statement
run_task-records n z now r db works =
    let o = run n r.task.type r.task.target in
    (
      if o.ok then o.value else minus_one,
      rw works refl,
      recorded o (run-Fits n r.task.type r.task.target),
    )
