-- ===== src/Store/Rules.antt =====
-- internal/store/alerts.go: the table of alert rules. The windows are stored as a JSON text.
use sounding.Prelude.{
  Bool, none, some, List, [], map, Text, same, is_empty, if◌then◌else◌, sort_by, leb_text,
}
use sounding.Prelude.Table.{upsert, delete}
use sounding.Json.{Json}
use sounding.Alert.Rules.{Rule}
use sounding.Store.Db.{M, statement, query, exec, RuleRow, rule_key}

-- A text that is empty or does not decode leaves the windows as they are, empty.
unfoldable pub decode_windows : Json → Text → List Text
decode_windows j mute =
    if is_empty mute then [] else elim (j.decode_list mute) [ none ↦ [] | some ws ↦ ws ]

unfoldable pub rule_of_row : Json → RuleRow → Rule
unfolding decode_windows
rule_of_row j r = record {
  kind = r.kind;
  node = r.node;
  threshold = r.threshold;
  silence_until = r.silence_until;
  mute_windows = decode_windows j r.mute_windows;
}

unfoldable pub row_of_rule : Json → Rule → RuleRow
row_of_rule j r = record {
  kind = r.kind;
  node = r.node;
  threshold = r.threshold;
  silence_until = r.silence_until;
  mute_windows = j.encode_list r.mute_windows;
}

-- `ORDER BY kind, node`
unfoldable pub leb_rule : RuleRow → RuleRow → Bool
leb_rule r s = if same r.kind s.kind then leb_text r.node s.node else leb_text r.kind s.kind

unfoldable pub load_alert_rules : Json → M (List Rule)
unfolding statement leb_rule rule_of_row
load_alert_rules j = query λ db. map (rule_of_row j) (sort_by leb_rule db.alert_rules)

unfoldable pub save_alert_rule : Json → Rule → M (Unit {0})
unfolding statement row_of_rule
save_alert_rule j r =
    let new = row_of_rule j r in
    exec λ db. record db {
      alert_rules =
          upsert rule_key
            (λ old. record old {
              threshold = new.threshold;
              silence_until = new.silence_until;
              mute_windows = new.mute_windows;
            })
            new db.alert_rules;
    }

unfoldable pub delete_alert_rule : Text → Text → M (Unit {0})
unfolding statement
delete_alert_rule kind node =
    exec λ db. record db { alert_rules = delete rule_key (kind, node) db.alert_rules }
