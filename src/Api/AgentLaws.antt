-- ===== src/Api/AgentLaws.antt =====
-- What a report of an agent changes.
use sounding.Prelude.{
  ◌<◌, ◌⊎◌, ◌≡◌, refl, ◌∙◌, Bool, true, false, not, ◌||◌, ◌&&◌, some, List, [], ◌∷◌, ◌++◌, Text,
  any, bytes, same, same_iff, same_self, is_empty, or_else, float, Result, ok, err, Bool-cases,
  Option-cases, inl, inr, arith,
}
use sounding.Contract.{AgentPayload, ProbeTarget}
use sounding.Store.Db.{Db, TaskRow, statement, same_pair}
use sounding.Store.Nodes.{upsert_node}
use sounding.Store.Records.{insert_status}
use sounding.Store.Probes.{upsert_probe_task, task_row}
use sounding.Store.ProbeLaws.{task_named, upsert_probe_task-merged}
use sounding.Api.{Env, Request, Response, refused, answered, Answer}
use sounding.Api.Agent.{
  upsert_targets, record_payload, with_node, with_status, decoded, is_stranger, agent_serve,
}

-- An answer with a status below 500 that is no success.
abbrev pub IsRefused : Response → Type 0
IsRefused (answered a) = ⊥
IsRefused (refused code msg) = code < 500

with_status-answers :
    (env : Env) (p : AgentPayload) (res : Result (Unit {0}) × Db)
    → ¬ IsRefused (with_status env p res).0
unfolding with_status
with_status-answers env p (err e, db) h = omega arith
with_status-answers env p (ok _, db) h = h

with_node-answers :
    (env : Env) (p : AgentPayload) (res : Result (Unit {0}) × Db)
    → ¬ IsRefused (with_node env p res).0
unfolding with_node
with_node-answers env p (err e, db) h = omega arith
with_node-answers env p (ok _, db) h =
    with_status-answers env p (insert_status env.zone env.now p.uuid p.status db) h

-- A report that is refused, for its method, its token or its body, changes nothing.
pub agent_serve-refused :
    (env : Env) (token : Text) (r : Request) (db : Db)
    → IsRefused (agent_serve env token r db).0
    → (agent_serve env token r db).1 ≡ db
unfolding agent_serve decoded
agent_serve-refused env token r db h = elim (Bool-cases (same r.method (bytes "POST"))) [
  | inr other ↦ rw other refl
  | inl post ↦ elim (Bool-cases (is_stranger token r)) [
    | inl stranger ↦ rw (post, stranger) refl
    | inr known ↦ elim (Option-cases (env.decoders.agent_payload r.body)) [
      | inl bad ↦ rw (post, known, bad) refl
      | inr (p, good) ↦
          rw (post, known, good)
            (absurd
              (unfold record_payload in with_node-answers env p _ (rw (post, known, good) at h)))
    ]
  ]
]

-- A target that counts and has the name.
abbrev pub mentions : Text → ProbeTarget → Bool
mentions n p = not (is_empty p.name || is_empty p.host) && same p.name n

-- What the loop over the reported targets leaves of a client's task.
module _ (uuid n : Text) where
  abbrev IsEnabled : Db → Type 0
  IsEnabled db = (t : TaskRow) × (task_named uuid n db ≡ some t) × (t.enabled ≡ 1)

  upsert_enables :
      (host name typ : Text) (db : Db)
      → db.faults ≡ []
      → (name ≡ n) ⊎ IsEnabled db
      → IsEnabled (upsert_probe_task uuid host name typ (float 60) true db).1
  unfolding task_row same_pair
  upsert_enables host name typ db works h =
      let after = upsert_probe_task-merged uuid host name typ (float 60) true db works uuid n in
      elim (Bool-cases (same name n)) [
        | inl own ↦ elim (Option-cases (task_named uuid name db)) [
          | inl missing ↦ (_, rw (same_self uuid, own, missing) at after, refl)
          | inr (t, found) ↦ (_, rw (same_self uuid, own, found) at after, refl)
        ]
        | inr other ↦ elim h [
          | inl e ↦ cc (other, (same_iff name n).1 e)
          | inr (t, found, on) ↦ (t, (rw (same_self uuid, other) at after) ∙ found, on)
        ]
      ]

  upsert_works :
      (host name typ : Text) (db : Db)
      → db.faults ≡ []
      → (upsert_probe_task uuid host name typ (float 60) true db).1.faults ≡ []
  unfolding upsert_probe_task statement
  upsert_works host name typ db works = rw works refl

  upsert_targets-enables :
      (ps : List ProbeTarget) (db : Db)
      → db.faults ≡ []
      → (any (mentions n) ps ≡ true) ⊎ IsEnabled db
      → IsEnabled (upsert_targets uuid ps db)
  unfolding upsert_targets
  upsert_targets-enables [] db works (inl h) = cc
  upsert_targets-enables [] db works (inr h) = h
  upsert_targets-enables (p ∷ ps) db works h =
      elim (Bool-cases (is_empty p.name || is_empty p.host)) [
        | inl blank ↦
            rw (blank, upsert_targets)
              (upsert_targets-enables ps db works
                (elim h [ inl e ↦ inl (rw blank at e) | inr on ↦ inr on ]))
        | inr given ↦
            let typ = or_else p.type (bytes "icmp") in
            let db' = (upsert_probe_task uuid p.host p.name typ (float 60) true db).1 in
            rw (given, upsert_targets)
              (upsert_targets-enables ps db' (upsert_works p.host p.name typ db works) (elim h [
                | inr on ↦ inr (upsert_enables p.host p.name typ db works (inr on))
                | inl e ↦ elim (Bool-cases (same p.name n)) [
                  | inl own ↦
                      inr (
                        upsert_enables p.host p.name typ db works (inl ((same_iff p.name n).0 own)))
                  | inr other ↦ inl (rw (given, other) at e)
                ]
              ]))
      ]

upsert-status_history :
    (uuid host name typ : Text) (db : Db)
    → db.faults ≡ []
    → (upsert_probe_task uuid host name typ (float 60) true db).1.status_history ≡ db.status_history
unfolding upsert_probe_task statement
upsert-status_history uuid host name typ db works = rw works refl

upsert_targets-status_history :
    (uuid : Text) (ps : List ProbeTarget) (db : Db)
    → db.faults ≡ []
    → (upsert_targets uuid ps db).status_history ≡ db.status_history
unfolding upsert_targets
upsert_targets-status_history uuid [] db works = refl
upsert_targets-status_history uuid (p ∷ ps) db works =
    let typ = or_else p.type (bytes "icmp") in
    elim (Bool-cases (is_empty p.name || is_empty p.host)) [
      | inl blank ↦ rw (blank, upsert_targets) (upsert_targets-status_history uuid ps db works)
      | inr given ↦
          rw (given, upsert_targets)
            (upsert_targets-status_history uuid ps _
                (upsert_works uuid [] p.host p.name typ db works)
              ∙ upsert-status_history uuid p.host p.name typ db works)
    ]

-- The database after the node and its status are stored.
abbrev pub stored_report : Env → AgentPayload → Db → Db
stored_report env p db = record db {
  nodes = (upsert_node env.json p.uuid p.name p.os_info db).1.nodes;
  status_history =
      db.status_history
      ++ record { client = p.uuid; time = env.zone.format_time env.now; status = p.status } ∷ [];
}

record_payload_lem :
    (env : Env) (p : AgentPayload) (db : Db)
    → db.faults ≡ []
    → record_payload env p db
      ≡ (answered Answer.done, upsert_targets p.uuid p.probes (stored_report env p db))
unfolding record_payload with_node with_status upsert_node insert_status statement
record_payload_lem env p db works = rw works refl

-- On a database that works, a report that is let through is answered, the node's status is appended to
-- the history with the time of the report, and every probe task that it names is enabled afterwards,
-- also one that the administrator had disabled.
pub agent_serve-records :
    (env : Env) (token : Text) (r : Request) (p : AgentPayload) (n : Text) (db : Db)
    → db.faults ≡ []
    → same r.method (bytes "POST") ≡ true
    → is_stranger token r ≡ false
    → env.decoders.agent_payload r.body ≡ some p
    → any (mentions n) p.probes ≡ true
    → ((agent_serve env token r db).0 ≡ answered Answer.done)
      × ((agent_serve env token r db).1.status_history
          ≡ db.status_history
            ++ record { client = p.uuid; time = env.zone.format_time env.now; status = p.status }
              ∷ [])
      × (t : TaskRow) × (task_named p.uuid n (agent_serve env token r db).1 ≡ some t)
      × (t.enabled ≡ 1)
unfolding agent_serve decoded
agent_serve-records env token r p n db works post known good h =
    let (t, found, on) =
      upsert_targets-enables p.uuid n p.probes (stored_report env p db) works (inl h) in
    rw (post, known, good, record_payload_lem env p db works)
      (
        refl,
        upsert_targets-status_history p.uuid p.probes (stored_report env p db) works,
        t,
        found,
        on,
      )
