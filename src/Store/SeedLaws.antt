-- ===== src/Store/SeedLaws.antt =====
-- internal/store/store.go: what seeding the probes changes.
use sounding.Prelude.{
  ◌+◌, ◌≡◌, refl, ◌∙◌, Bool-cases, Option-cases, inl, inr, Option, none, some, List, [], ◌∷◌, ◌++◌,
  Text, bytes, ok, All,
}
use sounding.Prelude.Table.{Key, find_row}
use sounding.Store.Db.{Db, TaskRow, task_key, statement}
use sounding.Store.Seeds.{
  insert_or_ignore, default_probes, seeded_task, seed_task, seed_tasks, seed_probe_tasks,
}

module _ {A K : Type 0} (t : Key A K) where
  find_row-append :
      (k : K) (rows : List A) (row : A)
      → find_row t k (rows ++ row ∷ [])
        ≡ (elim (find_row t k rows) [ none ↦ find_row t k (row ∷ []) | some r ↦ some r ])
  find_row-append k [] row = refl
  find_row-append k (r ∷ rows) row = elim (Bool-cases (t.eqb (t.key r) k)) [
    | inl here ↦ rw here refl
    | inr later ↦ rw later (find_row-append k rows row)
  ]

  -- A row that is found is found again.
  abbrev pub IsKept : Option A → Option A → Type 0
  IsKept none o = Unit
  IsKept (some r) o = o ≡ some r

  abbrev pub KeepsRows : List A → List A → Type 0
  KeepsRows old new = (k : K) → IsKept (find_row t k old) (find_row t k new)

  kept_row : (r : A) (old new : Option A) → IsKept old new → old ≡ some r → new ≡ some r
  kept_row r none new h e = cc
  kept_row r (some x) new h e = h ∙ e

  IsKept-self : (o : Option A) → IsKept o o
  IsKept-self none = tt
  IsKept-self (some r) = refl

  IsKept-trans : (a b c : Option A) → IsKept a b → IsKept b c → IsKept a c
  IsKept-trans none b c p q = tt
  IsKept-trans (some r) b c p q = kept_row r b c q p

  IsKept-or : (a b : Option A) → IsKept a (elim a [ none ↦ b | some r ↦ some r ])
  IsKept-or none b = tt
  IsKept-or (some r) b = refl

  insert_or_ignore-KeepsRows :
      (row : A) (rows : List A) → KeepsRows rows (insert_or_ignore t row rows)
  unfolding insert_or_ignore
  insert_or_ignore-KeepsRows row rows k = elim (Option-cases (find_row t (t.key row) rows)) [
    | inr (x, taken) ↦ rw (insert_or_ignore, taken) (IsKept-self (find_row t k rows))
    | inl free ↦
        rw (insert_or_ignore, free, find_row-append k rows row)
          (IsKept-or (find_row t k rows) (find_row t k (row ∷ [])))
  ]

  insert_or_ignore-taken :
      (row : A) (rows : List A)
      → (r : A) × (find_row t (t.key row) (insert_or_ignore t row rows) ≡ some r)
  unfolding insert_or_ignore
  insert_or_ignore-taken row rows = elim (Option-cases (find_row t (t.key row) rows)) [
    | inr (x, taken) ↦ (x, rw (insert_or_ignore, taken) taken)
    | inl free ↦ (
      row,
      rw (insert_or_ignore, free)
          (find_row-append (t.key row) rows row
            ∙ rw (free, (t.eqb_iff (t.key row) (t.key row)).1 refl) refl),
    )
  ]

  insert_or_ignore_idem :
      (row r : A) (rows : List A)
      → find_row t (t.key row) rows ≡ some r
      → insert_or_ignore t row rows ≡ rows
  unfolding insert_or_ignore
  insert_or_ignore_idem row r rows h = rw (insert_or_ignore, h) refl

-- The probe of a name for all clients has a row.
abbrev pub IsSeeded : List TaskRow → Text × Text → Type 0
IsSeeded rows p = (r : TaskRow) × (find_row task_key (bytes "*", p.1) rows ≡ some r)

seed_task_lem :
    (p : Text × Text) (db : Db)
    → db.faults ≡ []
    → seed_task p db ≡ (
      ok tt,
      record db {
        next_id = db.next_id + 1;
        probe_tasks = insert_or_ignore task_key (seeded_task db.next_id p) db.probe_tasks;
      },
    )
unfolding seed_task statement
seed_task_lem p db works = rw works refl

seed_tasks-IsSeeded :
    (ps : List (Text × Text)) (db : Db)
    → db.faults ≡ []
    → (new : Db) × (seed_tasks ps db ≡ (ok tt, new))
      × (new.faults ≡ [])
      × KeepsRows task_key db.probe_tasks new.probe_tasks
      × All (IsSeeded new.probe_tasks) ps
unfolding seed_tasks seeded_task
seed_tasks-IsSeeded [] db works =
    (db, refl, works, λ k. IsKept-self task_key (find_row task_key k db.probe_tasks), tt)
seed_tasks-IsSeeded (p ∷ ps) db works =
    let row = seeded_task db.next_id p in
    let rows = insert_or_ignore task_key row db.probe_tasks in
    let next = record db { next_id = db.next_id + 1; probe_tasks = rows } in
    let (new, e, works', keeps, seeded) = seed_tasks-IsSeeded ps next works in
    let (r, taken) = insert_or_ignore-taken task_key row db.probe_tasks in
    (
      new,
      rw (seed_task_lem p db works) e,
      works',
      λ k.
          IsKept-trans task_key (find_row task_key k db.probe_tasks) (find_row task_key k rows)
            (find_row task_key k new.probe_tasks)
            (insert_or_ignore-KeepsRows task_key row db.probe_tasks k) (keeps k),
      (
        (
          r,
          kept_row task_key r (find_row task_key (bytes "*", p.1) rows) _ (keeps (bytes "*", p.1))
              taken,
        ),
        seeded,
      ),
    )

seed_tasks_idem :
    (ps : List (Text × Text)) (db : Db)
    → db.faults ≡ []
    → All (IsSeeded db.probe_tasks) ps
    → (new : Db) × (seed_tasks ps db ≡ (ok tt, new)) × (new.probe_tasks ≡ db.probe_tasks)
unfolding seed_tasks seeded_task
seed_tasks_idem [] db works h = (db, refl, refl)
seed_tasks_idem (p ∷ ps) db works ((r, taken), h) =
    let row = seeded_task db.next_id p in
    let same_rows : insert_or_ignore task_key row db.probe_tasks ≡ db.probe_tasks =
      insert_or_ignore_idem task_key row r db.probe_tasks taken in
    let next = record db { next_id = db.next_id + 1 } in
    let (new, e, kept) = seed_tasks_idem ps next works h in
    (new, rw (seed_task_lem p db works, same_rows) e, kept)

-- On a database that works, SeedProbeTasks succeeds; each row that there was stays the row of its key, each default
-- probe has a row, and seeding again changes no row.
pub seed_probe_tasks-IsSeeded :
    (db : Db)
    → db.faults ≡ []
    → (new : Db) × (seed_probe_tasks db ≡ (ok tt, new))
      × KeepsRows task_key db.probe_tasks new.probe_tasks
      × All (IsSeeded new.probe_tasks) default_probes
      × (again : Db) × (seed_probe_tasks new ≡ (ok tt, again))
      × (again.probe_tasks ≡ new.probe_tasks)
unfolding seed_probe_tasks
seed_probe_tasks-IsSeeded db works =
    let (new, e, works', keeps, seeded) = seed_tasks-IsSeeded default_probes db works in
    let (again, f, kept) = seed_tasks_idem default_probes new works' seeded in
    (new, e, keeps, seeded, again, f, kept)
