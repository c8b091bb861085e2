-- ===== src/Store/ProbeLaws.antt =====
-- What the two paths that write a probe task keep and change.
use sounding.Prelude.{
  ◌≡◌, refl, Bool, ◌||◌, ◌&&◌, not, Option, some, List, [], ◌∷◌, Text, arith, any, ◌+◌, bytes, same,
  same_iff, is_empty, or_else, Bool-cases, inl, inr, any_laws, if◌then◌else◌, Float, float,
  is_positive, ok,
}
use sounding.Prelude.Table.{upsert, find_row, find_row-upsert, merged}
use sounding.Store.Db.{Db, task_key, TaskRow, same_pair}
use sounding.Store.Probes.{
  task_row, upsert_probe_task, admin_upsert_probe_interval, probe_clients, client_list, distinct,
}

-- The row of a client's task with a name.
abbrev pub task_named : Text → Text → Db → Option TaskRow
task_named client name db = find_row task_key (client, name) db.probe_tasks

module _ (client target name typ : Text) (interval_sec : Float) (enabled : Bool) (db : Db)
    (works : db.faults ≡ []) where
  abbrev offered : TaskRow
  offered = task_row db.next_id client target name typ interval_sec enabled

  abbrev reported : TaskRow → TaskRow
  reported old = record old {
    target = offered.target;
    type = offered.type;
    enabled = offered.enabled;
  }

  upsert_probe_task_lem : upsert_probe_task client target name typ interval_sec enabled db ≡ (
    ok tt,
    record db {
      next_id = db.next_id + 1;
      probe_tasks = upsert task_key reported offered db.probe_tasks;
    },
  )
  unfolding upsert_probe_task
  upsert_probe_task_lem = rw works

  pub upsert_probe_task-merged :
      (k n : Text)
      → task_named k n (upsert_probe_task client target name typ interval_sec enabled db).1 ≡ (
          if same_pair (client, name) (k, n)
          then some (merged task_key reported offered (task_named client name db))
          else task_named k n db)
  unfolding task_row
  upsert_probe_task-merged k n = rw (
    upsert_probe_task_lem,
    find_row-upsert task_key reported offered db.probe_tasks (k, n) (λ r. refl),
  )

  -- On a database that works, an agent's report of a task that has a row keeps its id and the interval
  -- that is configured; target, type and the mark "enabled" are the reported ones. Every other task
  -- keeps its row.
  pub upsert_probe_task-keeps_interval :
      (k n : Text) (old : TaskRow)
      → task_named client name db ≡ some old
      → task_named k n (upsert_probe_task client target name typ interval_sec enabled db).1 ≡ (
          if same_pair (client, name) (k, n)
          then some (record old { target = target; type = typ; enabled = if enabled then 1 else 0 })
          else task_named k n db)
  unfolding task_row
  upsert_probe_task-keeps_interval k n old found = rw (
    upsert_probe_task_lem,
    find_row-upsert task_key reported offered db.probe_tasks (k, n) (λ r. refl),
    found,
  )

module _ (client target name typ : Text) (interval_sec : Float) (enabled : Bool) (db : Db)
    (works : db.faults ≡ []) where
  abbrev configured : TaskRow
  configured =
      task_row db.next_id client target name (or_else typ (bytes "icmp"))
        (if is_positive interval_sec then interval_sec else float 60) enabled

  abbrev configure : TaskRow → TaskRow
  configure old = record old {
    target = configured.target;
    type = configured.type;
    interval_sec = configured.interval_sec;
    enabled = configured.enabled;
  }

  admin_upsert_probe_interval_lem :
      admin_upsert_probe_interval client target name typ interval_sec enabled db ≡ (
        ok tt,
        record db {
          next_id = db.next_id + 1;
          probe_tasks = upsert task_key configure configured db.probe_tasks;
        },
      )
  unfolding admin_upsert_probe_interval
  admin_upsert_probe_interval_lem = rw works

  -- On a database that works, an administrator's write of a task that has a row keeps its id and sets
  -- target, type, interval and the mark "enabled"; an empty type becomes icmp, and an interval that is
  -- not positive 60 seconds. Every other task keeps its row.
  pub admin_upsert_probe_interval-sets :
      (k n : Text) (old : TaskRow)
      → task_named client name db ≡ some old
      → task_named k n
          (admin_upsert_probe_interval client target name typ interval_sec enabled db).1
        ≡ (if same_pair (client, name) (k, n)
            then some (record old {
              target = target;
              type = or_else typ (bytes "icmp");
              interval_sec = if is_positive interval_sec then interval_sec else float 60;
              enabled = if enabled then 1 else 0;
            })
            else task_named k n db)
  unfolding task_row
  admin_upsert_probe_interval-sets k n old found = rw (
    admin_upsert_probe_interval_lem,
    find_row-upsert task_key configure configured db.probe_tasks (k, n) (λ r. refl),
    found,
  )

any-distinct : (c : Text) (ss : List Text) → any (same c) (distinct ss) ≡ any (same c) ss
unfolding distinct
any-distinct c [] = refl
any-distinct c (s ∷ ss) = elim (Bool-cases (any (same s) ss)) [
  | inl again ↦ elim (Bool-cases (same c s)) [
    | inl equal ↦ rw (again, any-distinct c ss, equal) (rw ((same_iff c s).0 equal) again)
    | inr other ↦ rw (again, any-distinct c ss, other)
  ]
  | inr first ↦ rw (first, any-distinct c ss)
]

-- Whether some task of its own or a node has the name of a client.
abbrev pub is_client : Text → Db → Bool
is_client c db =
    not (is_empty c)
    && (any (λ t. not (same t.client (bytes "*")) && same c t.client) db.probe_tasks
        || any (λ n. same c n.uuid) db.nodes)

nonempty-any :
    (c : Text) (ss : List Text)
    → any (λ s. not (is_empty s) && same c s) ss ≡ (not (is_empty c) && any (same c) ss)
nonempty-any c [] = ground arith
nonempty-any c (s ∷ ss) = elim (Bool-cases (same c s)) [
  | inl equal ↦ rw (equal, nonempty-any c ss) (rw ((same_iff c s).0 equal) (ground arith))
  | inr other ↦ rw (other, nonempty-any c ss) (ground arith)
]

-- On a database that works, the clients that are probed are those that some task of their own or some
-- node names, less "*" and the empty name.
pub probe_clients-is_client :
    (c : Text) (db : Db)
    → db.faults ≡ []
    → (probe_clients db ≡ (ok (client_list db), db))
      × (any (same c) (client_list db) ≡ is_client c db)
unfolding probe_clients client_list
probe_clients-is_client c db works = (rw works, simp (any_laws, nonempty-any, any-distinct))
