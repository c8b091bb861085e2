-- ===== src/Server/Kept.antt =====
-- cmd/server/main.go: what the handlers and loops that are not the administrator's leave alone.
use sounding.Prelude.{
  ◌≡◌, refl, ◌∙◌, true, ◌||◌, not, Bool-cases, Option-cases, inl, inr, List, [], ◌∷◌, Text, ok, err,
  Result, or_else, bytes, float, is_empty, same, ℤ, ℕ, ◌+◌, length, keep, ltb_text, if◌then◌else◌,
  ltb, find_first,
}
use sounding.Clock.{Time, Zone}
use sounding.Contract.{AgentPayload, ProbeTarget}
use sounding.Alert.Rules.{silenced}
use sounding.Notify.{Notifier}
use sounding.Alert.Manager.{Manager, Event, evaluate, deliver, is_cooling, event_key, matches}
use sounding.Alert.Watcher.{evaluate_all}
use sounding.Store.Db.{Db, statement}
use sounding.Store.Keys.{
  IsKeyed, upsert_node-KeepsKeys, insert_status-KeepsKeys, upsert_probe_task-KeepsKeys,
}
use sounding.Store.Nodes.{upsert_node}
use sounding.Store.Probes.{upsert_probe_task}
use sounding.Store.Records.{
  insert_status, retention_cutoff, after_purge, retention_tick, purge, purge_statuses, purge_probes,
  vacuum,
}
use sounding.Api.{Env, Request}
use sounding.Api.Agent.{
  agent_serve, is_stranger, decoded, record_payload, with_node, with_status, upsert_targets,
}

-- After a handler the keys are unique, and the table of rules is the same.
abbrev pub IsKeptKeyed : Db → Db → Type 0
IsKeptKeyed old new = (new.alert_rules ≡ old.alert_rules) × IsKeyed new

IsKeptKeyed-trans : (a b c : Db) → IsKeptKeyed a b → IsKeptKeyed b c → IsKeptKeyed a c
IsKeptKeyed-trans a b c (p, k) (q, l) = (q ∙ p, l)

-- One target of a report, which is left out if it has no name or no host.
abbrev after_target : Text → ProbeTarget → Db → Db
after_target uuid p db =
    if is_empty p.name || is_empty p.host
    then db
    else (upsert_probe_task uuid p.host p.name (or_else p.type (bytes "icmp")) (float 60) true db).1

after_target-IsKeptKeyed :
    (uuid : Text) (p : ProbeTarget) (db : Db) → IsKeyed db → IsKeptKeyed db (after_target uuid p db)
after_target-IsKeptKeyed uuid p db k = elim (Bool-cases (is_empty p.name || is_empty p.host)) [
  | inl blank ↦ rw blank (refl, k)
  | inr named ↦ rw named (upsert_probe_task-KeepsKeys uuid p.host p.name _ (float 60) true db k)
]

upsert_targets-IsKeptKeyed :
    (uuid : Text) (ps : List ProbeTarget) (db : Db)
    → IsKeyed db
    → IsKeptKeyed db (upsert_targets uuid ps db)
unfolding upsert_targets
upsert_targets-IsKeptKeyed uuid [] db k = (refl, k)
upsert_targets-IsKeptKeyed uuid (p ∷ ps) db k =
    let next = after_target uuid p db in
    let first = after_target-IsKeptKeyed uuid p db k in
    IsKeptKeyed-trans db next (upsert_targets uuid ps next) first
      (upsert_targets-IsKeptKeyed uuid ps next first.1)

module _ (env : Env) (p : AgentPayload) where
  with_status-IsKeptKeyed :
      (old : Db) (x : Result (Unit {0}) × Db)
      → IsKeptKeyed old x.1
      → IsKeptKeyed old (with_status env p x).1
  unfolding with_status
  with_status-IsKeptKeyed old (err e, db) k = k
  with_status-IsKeptKeyed old (ok _, db) k =
      IsKeptKeyed-trans old db (upsert_targets p.uuid p.probes db) k
        (upsert_targets-IsKeptKeyed p.uuid p.probes db k.1)

  with_node-IsKeptKeyed :
      (old : Db) (x : Result (Unit {0}) × Db)
      → IsKeptKeyed old x.1
      → IsKeptKeyed old (with_node env p x).1
  unfolding with_node
  with_node-IsKeptKeyed old (err e, db) k = k
  with_node-IsKeptKeyed old (ok _, db) k =
      let status = insert_status env.zone env.now p.uuid p.status in
      with_status-IsKeptKeyed old (status db) (
        IsKeptKeyed-trans old db (status db).1 k
          (insert_status-KeepsKeys env.zone env.now p.uuid p.status db k.1))

pub agent_serve-IsKeptKeyed :
    (env : Env) (token : Text) (r : Request) (db : Db)
    → IsKeyed db
    → IsKeptKeyed db (agent_serve env token r db).1
unfolding agent_serve decoded record_payload
agent_serve-IsKeptKeyed env token r db k = elim (Bool-cases (not (same r.method (bytes "POST")))) [
  | inl other ↦ rw other (refl, k)
  | inr post ↦ elim (Bool-cases (is_stranger token r)) [
    | inl stranger ↦ rw (post, stranger) (refl, k)
    | inr known ↦ elim (Option-cases (env.decoders.agent_payload r.body)) [
      | inl bad ↦ rw (post, known, bad) (refl, k)
      | inr (p, good) ↦
          rw (post, known, good)
            (with_node-IsKeptKeyed env p db (upsert_node env.json p.uuid p.name p.os_info db)
              (upsert_node-KeepsKeys env.json p.uuid p.name p.os_info db k))
    ]
  ]
]

-- Evaluating an event leaves the rules alone.
deliver-rules :
    (now : Time) (ev : Event) (ns : List Notifier) (m : Manager)
    → (deliver now ev ns m).0.rules ≡ m.rules
unfolding deliver
deliver-rules now ev [] m = refl
deliver-rules now ev (n ∷ ns) m = refl

evaluate-rules :
    (z : Zone) (now : Time) (ev : Event) (m : Manager) → (evaluate z now ev m).0.rules ≡ m.rules
unfolding evaluate
evaluate-rules z now ev m = elim (Bool-cases (is_cooling now (event_key ev) m)) [
  | inl cooling ↦ rw cooling refl
  | inr over ↦ elim (Option-cases (find_first (matches ev) m.rules)) [
    | inl unmatched ↦ rw (over, unmatched) refl
    | inr (r, matched) ↦ elim (Bool-cases (silenced z now r)) [
      | inl quiet ↦ rw (over, matched, quiet) refl
      | inr loud ↦
          rw (over, matched, loud)
            (deliver-rules now (record ev { threshold = r.threshold }) m.notifiers m)
    ]
  ]
]

pub evaluate_all-rules :
    (z : Zone) (now : Time) (evs : List Event) (m : Manager)
    → (evaluate_all z now evs m).0.rules ≡ m.rules
unfolding evaluate_all
evaluate_all-rules z now [] m = refl
evaluate_all-rules z now (ev ∷ evs) m =
    evaluate_all-rules z now evs (evaluate z now ev m).0 ∙ evaluate-rules z now ev m

purge-IsKeptKeyed :
    (z : Zone) (now : Time) (days : ℤ) (db : Db)
    → IsKeyed db
    → (n : ℕ) × (new : Db) × (purge z now days db ≡ (ok n, new)) × IsKeptKeyed db new
unfolding purge purge_statuses purge_probes statement
purge-IsKeptKeyed z now days db k =
    let cutoff = retention_cutoff z now days in
    (
      length (keep (λ r. ltb_text r.time cutoff) db.status_history)
          + length (keep (λ r. ltb_text r.time cutoff) db.probe_records),
      record db {
        status_history = keep (λ r. not (ltb_text r.time cutoff)) db.status_history;
        probe_records = keep (λ r. not (ltb_text r.time cutoff)) db.probe_records;
      },
      rw k.works refl,
      (refl, record { works = k.works; nodes = k.nodes; tasks = k.tasks }),
    )

vacuum_lem : (db : Db) → db.faults ≡ [] → vacuum db ≡ (ok tt, db)
unfolding vacuum statement
vacuum_lem db works = rw works refl

after_purge-IsKeptKeyed :
    (old : Db) (n : ℕ) (new : Db) → IsKeptKeyed old new → IsKeptKeyed old (after_purge (ok n, new))
unfolding after_purge
after_purge-IsKeptKeyed old n new kept = elim (Bool-cases (ltb 0 n)) [
  | inl some_gone ↦ rw (some_gone, vacuum_lem new kept.1.works) kept
  | inr none_gone ↦ rw none_gone kept
]

pub retention_tick-IsKeptKeyed :
    (z : Zone) (now : Time) (days : ℤ) (db : Db)
    → IsKeyed db
    → IsKeptKeyed db (retention_tick z now days db)
unfolding retention_tick
retention_tick-IsKeptKeyed z now days db k =
    let (n, new, e, kept) = purge-IsKeptKeyed z now days db k in
    rw e (after_purge-IsKeptKeyed db n new kept)
