-- ===== src/Server/Start.antt =====
-- cmd/server/main.go: the rules at the start, compared with the table of rules.
use sounding.Prelude.{
  ◌≡◌, refl, sym, ap, ◌∙◌, Bool, true, false, ◌&&◌, Option, none, some, List, [], ◌∷◌, ◌++◌, map,
  any, Text, bytes, arith, sort_by, inl, inr, Bool-cases, same, same_iff, if◌then◌else◌, Float,
  is_positive, ok,
}
use mathlib.Core.Option
use sounding.Prelude.Table.{find_row, find_row-sort_by, HasUniqueKeys}
use sounding.Json.{Json}
use sounding.Alert.Rules.{Rule, is_rule_of}
use sounding.Alert.RuleKeys.{rule_of, is_rule_of_iff}
use sounding.Store.Db.{Db, RuleRow, rule_key, same_pair}
use sounding.Store.Rules.{load_alert_rules, save_alert_rule, rule_of_row, leb_rule}
use sounding.Server.Rules.{
  plain_rule, seed_rules, save_all, replace_rules, override_rule, adopt_rules, start_rules,
}
use sounding.Server.Agreement.{
  JsonLaws, stored_rule, Agree, save_alert_rule_lem, stored_rule-save_alert_rule,
}

-- Reading rows and finding a rule commute.
rule_of-map :
    (j : Json) (kind node : Text) (rows : List RuleRow)
    → rule_of kind node (map (rule_of_row j) rows)
      ≡ Option.map (rule_of_row j) (find_row rule_key (kind, node) rows)
unfolding is_rule_of same_pair rule_of_row
rule_of-map j kind node [] = refl
rule_of-map j kind node (r ∷ rows) = elim (Bool-cases (same r.kind kind && same r.node node)) [
  | inl here ↦ rw here
  | inr later ↦ rw later (rule_of-map j kind node rows)
]

pub load_alert_rules-Agree :
    (j : Json) (db : Db)
    → db.faults ≡ []
    → HasUniqueKeys rule_key db.alert_rules
    → (rules : List Rule) × (load_alert_rules j db ≡ (ok rules, db)) × Agree j rules db
unfolding load_alert_rules
load_alert_rules-Agree j db works u = (
  map (rule_of_row j) (sort_by leb_rule db.alert_rules),
  rw works,
  λ kind node.
      rule_of-map j kind node (sort_by leb_rule db.alert_rules)
      ∙ ap (Option.map (rule_of_row j))
          (find_row-sort_by rule_key leb_rule (kind, node) db.alert_rules u),
)

rule_of-replace_rules_ne :
    (kind node : Text) (r : Rule) (rules : List Rule)
    → is_rule_of kind node r ≡ false
    → rule_of kind node (replace_rules r rules) ≡ rule_of kind node rules
unfolding replace_rules
rule_of-replace_rules_ne kind node r [] h = refl
rule_of-replace_rules_ne kind node r (ex ∷ rules) h = ground (
  arith,
  rule_of-replace_rules_ne kind node r rules h,
  is_rule_of_iff kind node ex,
  is_rule_of_iff kind node r,
  is_rule_of_iff r.kind r.node ex,
)

rule_of-replace_rules_self :
    (kind node : Text) (r : Rule) (rules : List Rule)
    → any (is_rule_of r.kind r.node) rules ≡ true
    → is_rule_of kind node r ≡ true
    → rule_of kind node (replace_rules r rules) ≡ some r
unfolding replace_rules
rule_of-replace_rules_self kind node r [] h k = cc
rule_of-replace_rules_self kind node r (ex ∷ rules) h k = ground (
  arith,
  rule_of-replace_rules_self kind node r rules,
  is_rule_of_iff kind node ex,
  is_rule_of_iff kind node r,
  is_rule_of_iff r.kind r.node ex,
)

rule_of-append :
    (kind node : Text) (r : Rule) (rules : List Rule)
    → any (is_rule_of r.kind r.node) rules ≡ false
    → rule_of kind node (rules ++ r ∷ [])
      ≡ (if is_rule_of kind node r then some r else rule_of kind node rules)
rule_of-append kind node r [] h = refl
rule_of-append kind node r (ex ∷ rules) h = ground (
  arith,
  rule_of-append kind node r rules,
  is_rule_of_iff kind node ex,
  is_rule_of_iff kind node r,
  is_rule_of_iff r.kind r.node ex,
)

rule_of-override_rule :
    (kind node : Text) (r : Rule) (rules : List Rule)
    → rule_of kind node (override_rule r rules)
      ≡ (if is_rule_of kind node r then some r else rule_of kind node rules)
unfolding override_rule
rule_of-override_rule kind node r rules = ground (
  arith,
  rule_of-append kind node r rules,
  rule_of-replace_rules_ne kind node r rules,
  rule_of-replace_rules_self kind node r rules,
)

-- The rule of a key in a list that is saved in turn, over what the table held.
last_rule : Text → Text → List Rule → Option Rule → Option Rule
last_rule kind node [] o = o
last_rule kind node (r ∷ rules) o =
    last_rule kind node rules (if is_rule_of kind node r then some r else o)

-- The seeded rules have distinct kinds.
last_rule-seed_rules :
    (offline : Bool) (latency : Float) (kind node : Text)
    → last_rule kind node (seed_rules offline latency) none
      ≡ rule_of kind node (seed_rules offline latency)
unfolding last_rule seed_rules is_rule_of bytes
last_rule-seed_rules offline latency kind node = ground (
  arith,
  same_iff (bytes "offline") kind,
  same_iff (bytes "latency") kind,
  same_iff (bytes "loss") kind,
)

module _ {j : Json} (l : JsonLaws j) where
  save_all-works :
      (rules : List Rule) (db : Db) → db.faults ≡ [] → (save_all j rules db).faults ≡ []
  unfolding save_all
  save_all-works [] db works = works
  save_all-works (r ∷ rules) db works =
      save_all-works rules (save_alert_rule j r db).1 (rw (save_alert_rule_lem l r db works) works)

  stored_rule-save_all :
      (kind node : Text) (rules : List Rule) (db : Db)
      → db.faults ≡ []
      → stored_rule j kind node (save_all j rules db)
        ≡ last_rule kind node rules (stored_rule j kind node db)
  unfolding save_all last_rule
  stored_rule-save_all kind node [] db works = refl
  stored_rule-save_all kind node (r ∷ rules) db works =
      stored_rule-save_all kind node rules (save_alert_rule j r db).1
        (rw (save_alert_rule_lem l r db works) works)
      ∙ ap (last_rule kind node rules) (stored_rule-save_alert_rule l r db works kind node)

  adopt_rules-Agree :
      (offline : Bool) (latency : Float) (rules : List Rule) (db : Db)
      → db.faults ≡ []
      → Agree j rules db
      → Agree j
          (adopt_rules j offline latency rules db).0
          (adopt_rules j offline latency rules db).1
  unfolding adopt_rules
  adopt_rules-Agree offline latency [] db works h kind node =
      sym (last_rule-seed_rules offline latency kind node)
      ∙ ap (last_rule kind node (seed_rules offline latency)) (h kind node)
      ∙ sym (stored_rule-save_all kind node (seed_rules offline latency) db works)
  adopt_rules-Agree offline latency (r ∷ rules) db works h kind node =
      elim (Bool-cases (is_positive latency)) [
        | inl given ↦
            let own = plain_rule (bytes "latency") latency in
            rw (
              given,
              rule_of-override_rule kind node own (r ∷ rules),
              stored_rule-save_alert_rule l own db works kind node,
              h kind node,
            )
        | inr missing ↦ rw missing (h kind node)
      ]

  -- On a database that works and whose table of rules has unique keys, the server starts with rules that
  -- agree with the table: for every kind and node both have the same rule or none.
  pub start_rules-Agree :
      (offline : Bool) (latency : Float) (db : Db)
      → db.faults ≡ []
      → HasUniqueKeys rule_key db.alert_rules
      → Agree j (start_rules j offline latency db).0 (start_rules j offline latency db).1
  unfolding start_rules
  start_rules-Agree offline latency db works u =
      let (rules, loaded, h) = load_alert_rules-Agree j db works u in
      rw loaded (adopt_rules-Agree offline latency rules db works h)
