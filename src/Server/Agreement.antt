-- ===== src/Server/Agreement.antt =====
-- cmd/server/main.go: the hooks, over the manager's rules in memory and the table in the database.
use sounding.Prelude.{
  ◌≡◌, ◌≢◌, refl, ap, ◌&&◌, Option, some, List, [], Text, arith, inl, inr, Bool-cases, Option-cases,
  same, if◌then◌else◌, ok,
}
use mathlib.Core.Option
use sounding.Prelude.Table.{
  upsert, find_row, merged, find_row-upsert, find_row-delete, find_row-key,
}
use sounding.Json.{Json}
use sounding.Alert.Rules.{Rule, is_rule_of}
use sounding.Alert.Manager.{Manager, manager_set, manager_delete}
use sounding.Alert.RuleKeys.{rule_of, rule_of-set_rule, rule_of-delete_rule}
use sounding.Store.Db.{Db, RuleRow, rule_key, same_pair}
use sounding.Store.Rules.{
  save_alert_rule, delete_alert_rule, rule_of_row, row_of_rule, decode_windows,
}
use sounding.Server.Rules.{set_alert, delete_alert}

-- What is relied on of encoding/json: a list of strings is written as a text that reads back.
pub record JsonLaws (j : Json) : Type 0 where
  pub decode_encode : (ws : List Text) → j.decode_list (j.encode_list ws) ≡ some ws
  pub encode-ne-nil : (ws : List Text) → j.encode_list ws ≢ []

-- The rule that the table holds for a kind and a node.
abbrev pub stored_rule : Json → Text → Text → Db → Option Rule
stored_rule j kind node db =
    Option.map (rule_of_row j) (find_row rule_key (kind, node) db.alert_rules)

abbrev pub Agree : Json → List Rule → Db → Type 0
Agree j rules db = (kind node : Text) → rule_of kind node rules ≡ stored_rule j kind node db

rule_of_row-row_of_rule : {j : Json} → JsonLaws j → (r : Rule) → rule_of_row j (row_of_rule j r) ≡ r
unfolding rule_of_row row_of_rule decode_windows
rule_of_row-row_of_rule {j} l r =
    ground (arith, l.decode_encode r.mute_windows, l.encode-ne-nil r.mute_windows)

abbrev pub saved : RuleRow → RuleRow → RuleRow
saved new old = record old {
  threshold = new.threshold;
  silence_until = new.silence_until;
  mute_windows = new.mute_windows;
}

module _ {j : Json} (l : JsonLaws j) (r : Rule) (db : Db) (works : db.faults ≡ []) where
  abbrev pub new_row : RuleRow
  new_row = row_of_rule j r

  pub save_alert_rule_lem :
      save_alert_rule j r db
      ≡ (ok tt, record db { alert_rules = upsert rule_key (saved new_row) new_row db.alert_rules })
  unfolding save_alert_rule
  save_alert_rule_lem = rw works

  merged-row :
      merged rule_key (saved new_row) new_row (find_row rule_key (r.kind, r.node) db.alert_rules)
      ≡ new_row
  unfolding row_of_rule
  merged-row = elim (Option-cases (find_row rule_key (r.kind, r.node) db.alert_rules)) [
    | inl missing ↦ rw missing
    | inr (old, found) ↦
        let same_key = find_row-key rule_key (r.kind, r.node) db.alert_rules old found in
        rw found (λ i. record {
          kind = (same_key i).0;
          node = (same_key i).1;
          threshold = r.threshold;
          silence_until = r.silence_until;
          mute_windows = j.encode_list r.mute_windows;
        })
  ]

  -- What the table holds after a rule is saved.
  pub stored_rule-save_alert_rule :
      (kind node : Text)
      → stored_rule j kind node (save_alert_rule j r db).1
        ≡ (if is_rule_of kind node r then some r else stored_rule j kind node db)
  unfolding is_rule_of same_pair row_of_rule
  stored_rule-save_alert_rule kind node =
      rw
        (
          save_alert_rule_lem,
          find_row-upsert rule_key (saved new_row) new_row db.alert_rules (kind, node) (λ r. refl),
          merged-row,
        )
        (elim (Bool-cases (same r.kind kind && same r.node node)) [
          | inl own ↦ rw own (ap some (rule_of_row-row_of_rule l r))
          | inr other ↦ rw other
        ])

  -- If the manager and the table agree, they agree after the hook that sets a rule, on a database that
  -- works.
  pub set_alert-Agree :
      (m : Manager)
      → Agree j m.rules db
      → Agree j (set_alert j r (m, db)).1.0.rules (set_alert j r (m, db)).1.1
  unfolding set_alert manager_set
  set_alert-Agree m h kind node =
      rw (rule_of-set_rule kind node r m.rules, stored_rule-save_alert_rule kind node, h kind node)

module _ (j : Json) (k n : Text) (db : Db) (works : db.faults ≡ []) where
  -- If the manager and the table agree, they agree after the hook that deletes a rule, on a database
  -- that works.
  pub delete_alert-Agree :
      (m : Manager)
      → Agree j m.rules db
      → Agree j (delete_alert k n (m, db)).1.0.rules (delete_alert k n (m, db)).1.1
  unfolding delete_alert manager_delete delete_alert_rule same_pair
  delete_alert-Agree m h kind node =
      rw (rule_of-delete_rule kind node k n m.rules, works, h kind node)
        (rw (find_row-delete rule_key (kind, node) (k, n) db.alert_rules)
          (elim (Bool-cases (same k kind && same n node)) [
            | inl own ↦ rw own
            | inr other ↦ rw other
          ]))
