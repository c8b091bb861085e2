-- ===== src/Store/Reads.antt =====
-- internal/store: what statements that only read do to the tables, and when they fail.
use sounding.Prelude.{
  ◌≡◌, refl, ap, ◌∙◌, Option, some, List, [], ◌∷◌, Text, Result, ok, err, List-cases, Option-cases,
  inl, inr, Bool-cases, is_positive, map,
}
use sounding.Clock.{Time, Zone}
use sounding.Contract.{NodeStatus, NodeStatusPing}
use sounding.Store.Db.{Db, M, ◌>>=◌, done, statement, query}
use sounding.Store.Status.{
  latest_status, ping_summaries, complete_all, with_uptime, first_seen_uptime, is_online,
  latest_rows, scanned, first_time, enabled_tasks,
}

-- No table changes; what statements fail later may.
abbrev pub SameTables : Db → Db → Type 0
SameTables old new = new ≡ record old { faults = new.faults }

SameTables-trans : (a b c : Db) → SameTables a b → SameTables b c → SameTables a c
SameTables-trans a b c p q = q ∙ ap (λ (x : Db). record x { faults = c.faults }) p

abbrev pub IsRead : {A : Type 0} → M A → Type 0
IsRead m = (db : Db) → SameTables db (m db).1

-- The first statement's error is the result.
abbrev pub FailsFirst : {A : Type 0} → M A → Type 0
FailsFirst m =
    (db : Db) (e : Text) (fs : List (Option Text)) → db.faults ≡ some e ∷ fs → (m db).0 ≡ err e

-- On a database that works there is a result, and the database is the same.
abbrev pub Succeeds : {A : Type 0} → M A → Type 0
Succeeds {A} m = (db : Db) → db.faults ≡ [] → (a : A) × (m db ≡ (ok a, db))

module _ {A : Type 0} where
  pub query-IsRead : (f : Db → A) → IsRead (query f)
  unfolding statement
  query-IsRead f db = elim (List-cases db.faults) [
    | inl works ↦ rw works refl
    | inr (o, fs, given) ↦ elim (Option-cases o) [
      | inl fine ↦ rw (given, fine) refl
      | inr (e, fails) ↦ rw (given, fails) refl
    ]
  ]

  pub query-FailsFirst : (f : Db → A) → FailsFirst (query f)
  unfolding statement
  query-FailsFirst f db e fs h = rw h refl

  pub query-Succeeds : (f : Db → A) → Succeeds (query f)
  unfolding statement
  query-Succeeds f db h = (f db, rw h refl)

module _ {A B : Type 0} (f : A → M B) where
  from_result :
      ((a : A) → IsRead (f a))
      → (old db : Db) (r : Result A) → SameTables old db
      → SameTables old (((λ _. (r, db)) >>= f) db).1
  from_result h old db (ok a) p = SameTables-trans old db (f a db).1 p (h a db)
  from_result h old db (err e) p = p

  pub bind-IsRead : (m : M A) → IsRead m → ((a : A) → IsRead (f a)) → IsRead (m >>= f)
  bind-IsRead m p h db = from_result h db (m db).1 (m db).0 (p db)

  pub bind-FailsFirst : (m : M A) → FailsFirst m → FailsFirst (m >>= f)
  bind-FailsFirst m p db e fs h = rw (p db e fs h) refl

  pub bind-Succeeds : (m : M A) → Succeeds m → ((a : A) → Succeeds (f a)) → Succeeds (m >>= f)
  bind-Succeeds m p q db h = let (a, e) = p db h in let (b, e') = q a db h in (b, rw e e')

pub done-IsRead : {A : Type 0} (a : A) → IsRead (done a)
done-IsRead a db = refl

pub done-Succeeds : {A : Type 0} (a : A) → Succeeds (done a)
done-Succeeds a db h = (a, refl)

module _ (z : Zone) (now : Time) where
  with_uptime-kept : (n : NodeStatus) (db : Db) → SameTables db (with_uptime z now n db).1
  unfolding with_uptime first_seen_uptime
  with_uptime-kept n db = elim (Bool-cases (is_positive n.uptime)) [
    | inl given ↦ rw given refl
    | inr missing ↦ rw missing (query-IsRead (first_time n.client) db)
  ]

  complete_all-kept :
      (pings : Text → List (Text × NodeStatusPing)) (ns : List NodeStatus) (db : Db)
      → SameTables db (complete_all z now pings ns db).1
  unfolding complete_all
  complete_all-kept pings [] db = refl
  complete_all-kept pings (n ∷ ns) db =
      let n' = record n { online = is_online z now n.time; ping = pings n.client } in
      let db' = (with_uptime z now n' db).1 in
      SameTables-trans db db' (complete_all z now pings ns db').1 (with_uptime-kept n' db)
        (complete_all-kept pings ns db')

  ping_summaries-IsRead : IsRead ping_summaries
  unfolding ping_summaries
  ping_summaries-IsRead = bind-IsRead _ (query enabled_tasks) (query-IsRead enabled_tasks) λ tasks.
      bind-IsRead _ (query (λ db. db.probe_records)) (query-IsRead (λ db. db.probe_records))
        λ records. λ db. refl

  -- Reading the latest statuses changes no table, and fails if the first query fails.
  pub latest_status-IsRead : IsRead (latest_status z now)
  unfolding latest_status
  latest_status-IsRead =
      bind-IsRead _ (query (λ db. map scanned (latest_rows db.status_history))) (query-IsRead _)
        λ out.
          bind-IsRead _ ping_summaries ping_summaries-IsRead λ pings. complete_all-kept pings out

  pub latest_status-FailsFirst : FailsFirst (latest_status z now)
  unfolding latest_status
  latest_status-FailsFirst =
      bind-FailsFirst _ (query (λ db. map scanned (latest_rows db.status_history)))
        (query-FailsFirst _)
