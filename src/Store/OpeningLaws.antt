-- ===== src/Store/OpeningLaws.antt =====
-- internal/store/store.go: what the schema is after opening.
use sounding.Prelude.{
  ◌≡◌, refl, sym, ap, ◌∙◌, true, false, inl, inr, Bool-cases, Option-cases, Option, none, some,
  List, [], ◌∷◌, ◌++◌, append_assoc, append-nil, Text, bytes, same, same_iff, same_self, any,
  any-append, ok, lookup, insert, lookup-insert, All, All-map, arith,
}
use mathlib.Core.Option.{some_inj}
use sounding.Store.Opening.{
  Tables, Schema, execute, create_table, create_tables, add_column, has_column, is_in,
  ensure_column, ensure_all, main_tables, probe_tables, added_columns, migrate, ensure_probe_tables,
  ensure_columns, open_store,
}

-- A table keeps its columns; new ones follow them.
abbrev pub IsKept : Option (List Text) → Option (List Text) → Type 0
IsKept none o = Unit
IsKept (some cs) o = (new : List Text) × (o ≡ some (cs ++ new))

abbrev pub IsExtended : Tables → Tables → Type 0
IsExtended old new = (name : Text) → IsKept (lookup name old) (lookup name new)

IsKept-self : (o : Option (List Text)) → IsKept o o
IsKept-self none = tt
IsKept-self (some cs) = ([], ap some (sym (append-nil cs)))

IsKept-trans : (a b c : Option (List Text)) → IsKept a b → IsKept b c → IsKept a c
IsKept-trans none b c p q = tt
IsKept-trans (some cs) (some ds) c (new, e) (more, f) =
    (new ++ more, f ∙ ap some (ap (λ x. x ++ more) (some_inj.0 e) ∙ append_assoc cs new more))
IsKept-trans (some cs) none c (new, e) q = cc

insert-IsExtended :
    (name : Text) (columns : List Text) (ts : Tables)
    → IsKept (lookup name ts) (some columns)
    → IsExtended ts (insert name columns ts)
insert-IsExtended name columns ts h n =
    rw (lookup-insert name n columns ts) (elim (Bool-cases (same name n)) [
      | inl own ↦ rw (own, sym ((same_iff name n).0 own)) h
      | inr other ↦ rw other (IsKept-self (lookup n ts))
    ])

-- A table that is there.
abbrev Stands : Tables → Text → Type 0
Stands ts name = (cs : List Text) × (lookup name ts ≡ some cs)

create_table-IsExtended :
    (name : Text) (columns : List Text) (ts : Tables)
    → IsExtended ts (create_table name columns ts) × Stands (create_table name columns ts) name
unfolding create_table
create_table-IsExtended name columns ts = elim (Option-cases (lookup name ts)) [
  | inr (cs, e) ↦ rw e (λ n. IsKept-self (lookup n ts), (cs, e))
  | inl e ↦ rw e (
    insert-IsExtended name columns ts (rw e tt),
    (columns, rw (lookup-insert name name columns ts, same_self name) refl),
  )
]

Stands-kept : (a b : Tables) (name : Text) → IsExtended a b → Stands a name → Stands b name
Stands-kept a b name h (cs, e) = let (new, f) = rw e at (h name) in (cs ++ new, f)

is_in-kept :
    (column : Text) (a b : Option (List Text))
    → IsKept a b
    → is_in column a ≡ true
    → is_in column b ≡ true
is_in-kept column none b h k = cc
is_in-kept column (some cs) b (new, e) k = rw (e, any-append (same column) cs new, k) refl

has_column-kept :
    (a b : Tables) (name column : Text)
    → IsExtended a b
    → has_column name column a ≡ true
    → has_column name column b ≡ true
unfolding has_column
has_column-kept a b name column h k = is_in-kept column (lookup name a) (lookup name b) (h name) k

create_tables-IsExtended :
    (new ts : Tables)
    → IsExtended ts (create_tables new ts) × All (λ t. Stands (create_tables new ts) t.0) new
unfolding create_tables
create_tables-IsExtended [] ts = (λ n. IsKept-self (lookup n ts), tt)
create_tables-IsExtended ((name, columns) ∷ new) ts =
    let next = create_table name columns ts in
    let (first, stands) = create_table-IsExtended name columns ts in
    let (rest, all_stand) = create_tables-IsExtended new next in
    (
      λ n.
          IsKept-trans (lookup n ts) (lookup n next) (lookup n (create_tables new next)) (first n)
            (rest n),
      (Stands-kept next (create_tables new next) name rest stands, all_stand),
    )

-- Nothing is created that is there.
create_tables_idem : (new ts : Tables) → All (λ t. Stands ts t.0) new → create_tables new ts ≡ ts
unfolding create_tables create_table
create_tables_idem [] ts h = refl
create_tables_idem ((name, columns) ∷ new) ts ((cs, e), h) = rw e (create_tables_idem new ts h)

abbrev working : Tables → Schema
working ts = record { tables = ts; faults = [] }

add_column_lem :
    (name column : Text) (ts : Tables) (cs : List Text)
    → lookup name ts ≡ some cs
    → any (same column) cs ≡ false
    → add_column name column ts ≡ ok (insert name (cs ++ column ∷ []) ts)
unfolding add_column
add_column_lem name column ts cs e missing = rw (add_column, e, missing) refl

-- A column of a table that stands is there after the step, and no column is lost.
ensure_column-has :
    (name column : Text) (ts : Tables)
    → Stands ts name
    → (new : Tables) × (ensure_column name column (working ts) ≡ (ok tt, working new))
      × IsExtended ts new
      × (has_column name column new ≡ true)
unfolding ensure_column has_column execute
ensure_column-has name column ts (cs, e) = elim (Bool-cases (any (same column) cs)) [
  | inl there ↦ (ts, rw (e, there) refl, λ n. IsKept-self (lookup n ts), rw (e, there) refl)
  | inr missing ↦ (
    insert name (cs ++ column ∷ []) ts,
    rw (e, missing, add_column_lem name column ts cs e missing) refl,
    insert-IsExtended name (cs ++ column ∷ []) ts (rw e (column ∷ [], refl)),
    rw (lookup-insert name name (cs ++ column ∷ []) ts, same_self name)
        (rw (any-append (same column) cs (column ∷ []), same_self column) (ground arith)),
  )
]

ensure_all-has :
    (cs : List (Text × Text)) (ts : Tables)
    → All (λ c. Stands ts c.0) cs
    → (new : Tables) × (ensure_all cs (working ts) ≡ (ok tt, working new))
      × IsExtended ts new
      × All (λ c. has_column c.0 c.1 new ≡ true) cs
unfolding ensure_all
ensure_all-has [] ts h = (ts, refl, λ n. IsKept-self (lookup n ts), tt)
ensure_all-has ((name, column) ∷ cs) ts (stands, h) =
    let (next, e, ext, has) = ensure_column-has name column ts stands in
    let (new, f, ext', all_has) =
      ensure_all-has cs next (All-map _ _ (λ c s. Stands-kept ts next c.0 ext s) cs h) in
    (
      new,
      rw e f,
      λ n. IsKept-trans (lookup n ts) (lookup n next) (lookup n new) (ext n) (ext' n),
      (has_column-kept next new name column ext' has, all_has),
    )

ensure_all_idem :
    (cs : List (Text × Text)) (ts : Tables)
    → All (λ c. has_column c.0 c.1 ts ≡ true) cs
    → ensure_all cs (working ts) ≡ (ok tt, working ts)
unfolding ensure_all ensure_column
ensure_all_idem [] ts h = refl
ensure_all_idem ((name, column) ∷ cs) ts (has, h) = rw has (ensure_all_idem cs ts h)

-- With statements that all work, opening a database of any earlier tables succeeds: each table keeps its
-- columns, in their order, each added column is there, and opening it again changes nothing.
pub open_store-IsExtended :
    (ts : Tables)
    → (new : Tables) × (open_store (record { tables = ts; faults = [] })
        ≡ (ok tt, record { tables = new; faults = [] }))
      × IsExtended ts new
      × All (λ c. has_column c.0 c.1 new ≡ true) added_columns
      × (open_store (record { tables = new; faults = [] })
          ≡ (ok tt, record { tables = new; faults = [] }))
unfolding open_store migrate ensure_probe_tables ensure_columns execute
open_store-IsExtended ts =
    let first = create_tables main_tables ts in
    let second = create_tables probe_tables first in
    let (ext, (nodes, (history, _))) = create_tables-IsExtended main_tables ts in
    let (ext', probes) = create_tables-IsExtended probe_tables first in
    let nodes' = Stands-kept first second (bytes "nodes") ext' nodes in
    let history' = Stands-kept first second (bytes "status_history") ext' history in
    let (new, e, ext'', has) =
      ensure_all-has added_columns second (nodes', (nodes', (nodes', (history', tt)))) in
    let kept = λ (n : Text) (s : Stands second n). Stands-kept second new n ext'' s in
    (
      new,
      e,
      λ n.
          IsKept-trans (lookup n ts) (lookup n second) (lookup n new)
            (IsKept-trans (lookup n ts) (lookup n first) (lookup n second) (ext n) (ext' n))
            (ext'' n),
      has,
      rw
          (
            create_tables_idem main_tables new (kept _ nodes', (kept _ history', tt)),
            create_tables_idem probe_tables new
                (All-map _ _ (λ t s. Stands-kept second new t.0 ext'' s) probe_tables probes),
          )
          (ensure_all_idem added_columns new has),
    )
