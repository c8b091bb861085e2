-- ===== src/Store/StatusLaws.antt =====
-- What the latest statuses and the alert snapshots have to do with the history.
use sounding.Prelude.{
  ◌≡◌, refl, sym, ap, ◌∙◌, Bool, true, false, ◌&&◌, not, Option, none, some, List, [], ◌∷◌, map,
  Text, any, same, same_iff, bytes, if◌then◌else◌, Bool-cases, Option-cases, inl, inr, arith,
  any-append, Float, is_positive, ok, subst,
}
use sounding.Contract.{Client, NodeStatus, NodeStatusPing}
use sounding.Clock.{Time, Zone}
use sounding.Alert.Manager.{Event}
use sounding.Alert.Watcher.{Snapshot, snapshot_events, snapshots_events, ping_event}
use sounding.Store.Db.{Db, StatusRow, statement}
use sounding.Store.Nodes.{nodes}
use sounding.Store.Status.{
  latest_rows, scanned, is_online, first_time, first_seen_uptime, uptime_from, with_uptime,
  complete_all, latest_status, ping_summaries, enabled_tasks, summaries_of, snapshot_of,
  alert_snapshots,
}

-- The last row of a client.
abbrev pub last_of : Text → List StatusRow → Option StatusRow
last_of c [] = none
last_of c (r ∷ rs) = elim (last_of c rs) [
  | none ↦ if same r.client c then some r else none
  | some s ↦ some s
]

abbrev pub last_passes : (StatusRow → Bool) → Option StatusRow → Bool
last_passes q none = false
last_passes q (some r) = q r

last_of-none :
    (c : Text) (h : List StatusRow) → any (λ s. same c s.client) h ≡ false → last_of c h ≡ none
last_of-none c [] e = refl
last_of-none c (r ∷ rs) e =
    ground (arith, last_of-none c rs, same_iff r.client c, same_iff c r.client)

last_of-some :
    (c : Text) (h : List StatusRow)
    → any (λ s. same c s.client) h ≡ true
    → (r : StatusRow) × (last_of c h ≡ some r)
last_of-some c [] e = cc
last_of-some c (r ∷ rs) e = elim (Option-cases (last_of c rs)) [
  | inr (s, p) ↦ (s, rw p refl)
  | inl p ↦ elim (Bool-cases (any (λ s. same c s.client) rs)) [
    | inl q ↦ let (s, p') = last_of-some c rs q in (s, rw p' refl)
    | inr q ↦ (r, rw p (ground (arith, same_iff r.client c, same_iff c r.client)))
  ]
]

any-latest_rows :
    (q : StatusRow → Bool) (c : Text) (h : List StatusRow)
    → any (λ r. same r.client c && q r) (latest_rows h) ≡ last_passes q (last_of c h)
unfolding latest_rows
any-latest_rows q c [] = refl
any-latest_rows q c (r ∷ rs) = elim (Bool-cases (any (λ s. same r.client s.client) rs)) [
  | inl later ↦
      let (s, found) = last_of-some r.client rs later in
      rw later (
        any-latest_rows q c rs ∙ elim (Option-cases (last_of c rs)) [
          | inr (x, p) ↦ rw p refl
          | inl p ↦ elim (Bool-cases (same r.client c)) [
            | inl own ↦ cc (rw ((same_iff r.client c).0 own) at found)
            | inr other ↦ rw (p, other) refl
          ]
        ])
  | inr last ↦ elim (Bool-cases (same r.client c)) [
    | inl own ↦
        let none_later = last_of-none r.client rs last in
        let p : last_of c rs ≡ none = rw ((same_iff r.client c).0 own) at none_later in
        rw (last, own, p) (ground (arith, rw p at (any-latest_rows q c rs)))
    | inr other ↦
        rw (last, other, any-latest_rows q c rs)
          (elim (Option-cases (last_of c rs)) [
            | inl p ↦ rw (p, other) refl
            | inr (x, p) ↦ rw p refl
          ])
  ]
]

map_thrice :
    {A B C D : Type 0} (h : C → D) (g : B → C) (f : A → B) (xs : List A)
    → map h (map g (map f xs)) ≡ map (λ x. h (g (f x))) xs
map_thrice h g f [] = refl
map_thrice h g f (x ∷ xs) = rw (map_thrice h g f xs) refl

-- On a database that works, the loop of `LatestStatus` completes each status on its own.
module _ (z : Zone) (now : Time) (db : Db) where
  abbrev working : Db
  working = record db { faults = [] }

  abbrev completed : (Text → List (Text × NodeStatusPing)) → NodeStatus → NodeStatus
  completed pings n = record n {
    online = is_online z now n.time;
    ping = pings n.client;
    uptime = if is_positive n.uptime then n.uptime else uptime_from z now (first_time n.client db);
  }

  with_uptime_lem :
      (n : NodeStatus)
      → with_uptime z now n working ≡ (
        record n {
          uptime =
              if is_positive n.uptime then n.uptime else uptime_from z now (first_time n.client db);
        },
        working,
      )
  unfolding with_uptime first_seen_uptime statement first_time
  with_uptime_lem n = elim (Bool-cases (is_positive n.uptime)) [
    | inl given ↦ rw given refl
    | inr missing ↦ rw missing refl
  ]

  complete_all-map :
      (pings : Text → List (Text × NodeStatusPing)) (ns : List NodeStatus)
      → complete_all z now pings ns working ≡ (map (completed pings) ns, working)
  unfolding complete_all
  complete_all-map pings [] = refl
  complete_all-map pings (n ∷ ns) =
      rw (with_uptime_lem (record n { online = is_online z now n.time; ping = pings n.client }))
        (rw (complete_all-map pings ns) refl)

  abbrev pings : Text → List (Text × NodeStatusPing)
  pings client = summaries_of client db.probe_records (enabled_tasks db) []

  abbrev listed : List Client
  listed = map {A = Client} (λ c. record c { groups = c.group ∷ [] }) db.nodes

  abbrev snapshot_of_row : StatusRow → Snapshot
  snapshot_of_row r = snapshot_of z listed (completed pings (scanned r))

  alert_snapshots_lem :
      alert_snapshots z now working
      ≡ (ok (map snapshot_of_row (latest_rows db.status_history)), working)
  unfolding alert_snapshots latest_status ping_summaries statement nodes enabled_tasks
  alert_snapshots_lem = rw (complete_all-map pings (map scanned (latest_rows db.status_history))) (
      rw
        (map_thrice (snapshot_of z listed) (completed pings) scanned
          (latest_rows db.status_history))
        refl)

-- On a database that works, the latest statuses are read, and nothing changes.
pub latest_status_lem :
    (z : Zone) (now : Time) (db : Db)
    → db.faults ≡ []
    → (ns : List NodeStatus) × (latest_status z now db ≡ (ok ns, db))
unfolding latest_status ping_summaries statement
latest_status_lem z now db works =
    let ns : List NodeStatus =
      map (completed z now db (pings z now db)) (map scanned (latest_rows db.status_history)) in
    (
      ns,
      subst (λ (d : Db). latest_status z now d ≡ (ok ns, d))
          (ap (λ fs. record db { faults = fs }) (sym works))
          (rw
            (complete_all-map z now db (pings z now db)
              (map scanned (latest_rows db.status_history)))
            refl),
    )

-- On a database that works, reading the latest statuses changes nothing.
pub latest_status-kept :
    (z : Zone) (now : Time) (db : Db) → db.faults ≡ [] → (latest_status z now db).1 ≡ db
latest_status-kept z now db works = let (ns, e) = latest_status_lem z now db works in rw e refl

module _ (c : Text) where
  -- An event that says of the client that it is offline.
  abbrev pub says_offline : Event → Bool
  says_offline ev = same ev.kind (bytes "offline") && same ev.node c

  pings_say_nothing :
      (s : Snapshot) (ps : List (Text × Float)) → any says_offline (map (ping_event s) ps) ≡ false
  unfolding ping_event same bytes
  pings_say_nothing s [] = refl
  pings_say_nothing s ((name, ms) ∷ ps) = ground (arith, pings_say_nothing s ps)

  snapshot_says :
      (s : Snapshot) → any says_offline (snapshot_events s) ≡ (same s.uuid c && not s.online)
  unfolding snapshot_events same bytes
  snapshot_says s = ground (arith, pings_say_nothing s s.ping)

  snapshots_say :
      (f : StatusRow → Snapshot) (rows : List StatusRow)
      → any says_offline (snapshots_events (map f rows))
        ≡ any (λ r. same (f r).uuid c && not (f r).online) rows
  unfolding snapshots_events
  snapshots_say f [] = refl
  snapshots_say f (r ∷ rows) = rw (any-append, snapshot_says (f r), snapshots_say f rows) refl

-- On a database that works, a round of the watcher evaluates an offline event for a node exactly if the
-- node has a status and the time of its last one cannot be read or lies a minute or more back.
pub alert_snapshots-offline :
    (z : Zone) (now : Time) (c : Text) (db : Db)
    → db.faults ≡ []
    → (snaps : List Snapshot) × (alert_snapshots z now db ≡ (ok snaps, db))
      × (any (says_offline c) (snapshots_events snaps)
          ≡ last_passes (λ r. not (is_online z now r.time)) (last_of c db.status_history))
unfolding snapshot_of scanned
alert_snapshots-offline z now c db works = (
  map (snapshot_of_row z now db) (latest_rows db.status_history),
  subst
      (λ (d : Db).
        alert_snapshots z now d
        ≡ (ok (map (snapshot_of_row z now db) (latest_rows db.status_history)), d))
      (ap (λ fs. record db { faults = fs }) (sym works)) (alert_snapshots_lem z now db),
  snapshots_say c (snapshot_of_row z now db) (latest_rows db.status_history)
      ∙ any-latest_rows _ c db.status_history,
)
