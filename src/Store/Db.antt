-- ===== src/Store/Db.antt =====
-- internal/store/store.go: the tables that `migrate` and `ensureProbeTables` create, and a monad of
-- statements. SQLite is no code of the repository: a statement acts on the lists of rows as its text
-- says, or fails. The outcomes of the statements to come are given by the field `faults`: `none` for
-- one that works, and past the end all work.
use sounding.Prelude.{
  ℕ, ◌≡◌, ◌↔◌, Bool, true, ◌&&◌, Option, none, some, List, [], ◌∷◌, Text, same, same_iff, arith,
  Float, Result, ok, err,
}
use sounding.Prelude.Table.{Key}
use sounding.Contract.{Client, AgentStatus, PingRecord}

-- A row of status_history; the order of the rows is that of their rowids.
pub record StatusRow : Type 0 where
  pub client : Text
  pub time : Text
  pub status : AgentStatus

pub record TaskRow : Type 0 where
  pub id : ℕ
  pub client : Text
  pub target : Text
  pub type : Text
  pub name : Text
  pub interval_sec : Float
  pub enabled : ℕ

-- The column mute_windows holds a JSON text.
pub record RuleRow : Type 0 where
  pub kind : Text
  pub node : Text
  pub threshold : Float
  pub silence_until : Text
  pub mute_windows : Text

pub record Db : Type 0 where
  pub nodes : List Client
  pub status_history : List StatusRow
  pub probe_tasks : List TaskRow
  pub next_id : ℕ
  pub probe_records : List PingRecord
  pub alert_rules : List RuleRow
  pub secrets : List (Text × Text)
  pub faults : List (Option Text)

abbrev pub M : Type 0 → Type 0
M A = Db → Result A × Db

abbrev continue : {A B : Type 0} → (A → M B) → Result A × Db → Result B × Db
continue f (ok a, db) = f a db
continue f (err e, db) = (err e, db)

infixl 5 ◌>>=◌ ◌>>◌
abbrev pub ◌>>=◌ : {A B : Type 0} → M A → (A → M B) → M B
◌>>=◌ m f db = continue f (m db)

abbrev pub ◌>>◌ : {B : Type 0} → M (Unit {0}) → M B → M B
m >> k = m >>= λ _. k

abbrev pub done : {A : Type 0} → A → M A
done a db = (ok a, db)

abbrev pub fail : {A : Type 0} → Text → M A
fail e db = (err e, db)

abbrev answer : {A : Type 0} → List (Option Text) → (Db → A × Db) → Db → Result A × Db
answer [] f db = let (a, db') = f db in (ok a, db')
answer (none ∷ fs) f db = let (a, db') = f (record db { faults = fs }) in (ok a, db')
answer (some e ∷ fs) f db = (err e, record db { faults = fs })

-- One statement.
unfoldable pub statement : {A : Type 0} → (Db → A × Db) → M A
statement f db = answer db.faults f db

abbrev pub query : {A : Type 0} → (Db → A) → M A
query f = statement λ db. (f db, db)

abbrev pub exec : (Db → Db) → M (Unit {0})
exec f = statement λ db. (tt, f db)

-- The keys of the tables.
abbrev pub node_key : Key Client Text
node_key = record { key = λ c. c.uuid; eqb = same; eqb_iff = same_iff }

unfoldable pub same_pair : Text × Text → Text × Text → Bool
same_pair (a, b) (c, d) = same a c && same b d

pub same_pair_iff : (p q : Text × Text) → (same_pair p q ≡ true) ↔ (p ≡ q)
unfolding same_pair
same_pair_iff (a, b) (c, d) = ground (arith, same_iff a c, same_iff b d)

abbrev pub task_key : Key TaskRow (Text × Text)
task_key = record { key = λ t. (t.client, t.name); eqb = same_pair; eqb_iff = same_pair_iff }

abbrev pub rule_key : Key RuleRow (Text × Text)
rule_key = record { key = λ r. (r.kind, r.node); eqb = same_pair; eqb_iff = same_pair_iff }

abbrev pub secret_key : Key (Text × Text) Text
secret_key = record { key = λ s. s.0; eqb = same; eqb_iff = same_iff }
