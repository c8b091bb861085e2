-- ===== src/Server/Rules.antt =====
-- cmd/server/main.go: the alert rules at the start, and the hooks that the admin endpoint calls. The
-- manager is in memory and the table in the database.
use sounding.Prelude.{
  Bool, List, [], ◌∷◌, ◌++◌, any, Text, bytes, if◌then◌else◌, Float, float, is_positive, Result, ok,
  err,
}
use sounding.Json.{Json}
use sounding.Alert.Rules.{Rule, is_rule_of}
use sounding.Alert.Manager.{Manager, manager_set, manager_delete}
use sounding.Store.Db.{Db}
use sounding.Store.Rules.{load_alert_rules, save_alert_rule, delete_alert_rule}

-- A rule with no silence.
unfoldable pub plain_rule : Text → Float → Rule
plain_rule kind threshold = record {
  kind = kind;
  node = bytes "*";
  threshold = threshold;
  silence_until = [];
  mute_windows = [];
}

-- The rules of an empty table, from the flags -alert-offline and -alert-latency-ms.
unfoldable pub seed_rules : Bool → Float → List Rule
unfolding plain_rule
seed_rules offline latency =
    (if offline then plain_rule (bytes "offline") (float 1) ∷ [] else [])
    ++ (if is_positive latency then plain_rule (bytes "latency") latency ∷ [] else [])
    ++ plain_rule (bytes "loss") (float 100) ∷ []

-- `SaveAlertRule` on each rule; its errors are ignored.
unfoldable pub save_all : Json → List Rule → Db → Db
save_all j [] db = db
save_all j (r ∷ rules) db = save_all j rules (save_alert_rule j r db).1

-- The loop that replaces the rules of the new rule's kind and node.
unfoldable pub replace_rules : Rule → List Rule → List Rule
replace_rules r [] = []
replace_rules r (ex ∷ rules) =
    (if is_rule_of r.kind r.node ex then r else ex) ∷ replace_rules r rules

unfoldable pub override_rule : Rule → List Rule → List Rule
unfolding replace_rules
override_rule r rules =
    if any (is_rule_of r.kind r.node) rules then replace_rules r rules else rules ++ r ∷ []

-- What follows when the rules are loaded.
unfoldable pub adopt_rules : Json → Bool → Float → List Rule → Db → List Rule × Db
unfolding seed_rules save_all override_rule plain_rule
adopt_rules j offline latency [] db =
    let rules = seed_rules offline latency in (rules, save_all j rules db)
adopt_rules j offline latency (r ∷ rules) db =
    let own = plain_rule (bytes "latency") latency in
    if is_positive latency
    then (override_rule own (r ∷ rules), (save_alert_rule j own db).1)
    else (r ∷ rules, db)

rules_or_none : Result (List Rule) → List Rule
rules_or_none (ok rules) = rules
rules_or_none (err e) = []

-- The manager's rules and the database when the server starts; an error of loading is logged.
unfoldable pub start_rules : Json → Bool → Float → Db → List Rule × Db
unfolding adopt_rules rules_or_none
start_rules j offline latency db =
    let (loaded, db') = load_alert_rules j db in
    adopt_rules j offline latency (rules_or_none loaded) db'

-- The hooks of `SetAlertHooksEx`.
unfoldable pub set_alert : Json → Rule → Manager × Db → Result (Unit {0}) × (Manager × Db)
set_alert j r (m, db) = let (res, db') = save_alert_rule j r db in (res, (manager_set r m, db'))

unfoldable pub delete_alert : Text → Text → Manager × Db → Result (Unit {0}) × (Manager × Db)
delete_alert kind node (m, db) =
    let (res, db') = delete_alert_rule kind node db in (res, (manager_delete kind node m, db'))
