-- ===== src/Server/Race.antt =====
-- cmd/server/main.go: hooks of the administrator that run at the same time.
use sounding.Prelude.{◌≡◌, refl, true, [], ◌∷◌, Text, some}
use sounding.Json.{Json}
use sounding.Alert.Rules.{Rule, is_rule_of}
use sounding.Alert.RuleKeys.{rule_of, rule_of-set_rule}
use sounding.Alert.Manager.{Manager, manager_set}
use sounding.Store.Db.{Db}
use sounding.Api.Admin.{State}
use sounding.Server.Rules.{set_alert, delete_alert}
use sounding.Server.Agreement.{JsonLaws, stored_rule, stored_rule-save_alert_rule}
use sounding.Server.Invariants.{IsSound, written-IsSound}
use sounding.Server.Steps.{Setup, Write, Step, Reaches, begun, written}

-- A hook by itself is its two calls, one after the other.
set_alert-two_calls :
    (j : Json) (r : Rule) (m : Manager) (db : Db)
    → (set_alert j r (m, db)).1 ≡ (begun (Write.save r) m, written j (Write.save r) db)
unfolding set_alert begun written
set_alert-two_calls j r m db = refl

delete_alert-two_calls :
    (j : Json) (kind node : Text) (m : Manager) (db : Db)
    → (delete_alert kind node (m, db)).1
      ≡ (begun (Write.remove kind node) m, written j (Write.remove kind node) db)
unfolding delete_alert begun written
delete_alert-two_calls j kind node m db = refl

-- From any state with a database that works and unique keys, two hooks that set rules of one kind and node can leave the second rule
-- in the manager and the first in the table: the first writes last.
pub hooks-race :
    (srv : Setup) (kind node : Text) (r q : Rule) (m : Manager) (db : Db)
    → JsonLaws srv.env.json
    → IsSound db
    → is_rule_of kind node r ≡ true
    → is_rule_of kind node q ≡ true
    → (t : State) × Reaches srv ([], (m, db)) ([], t)
      × (rule_of kind node t.0.rules ≡ some q)
      × (stored_rule srv.env.json kind node t.1 ≡ some r)
unfolding begun written manager_set
hooks-race srv kind node r q m db laws h own_r own_q =
    let j = srv.env.json in
    let first = Write.save r in
    let second = Write.save q in
    let m1 = begun first m in
    let m2 = begun second m1 in
    let db1 = written j second db in
    let db2 = written j first db1 in
    let sound1 = written-IsSound laws second db h in
    (
      (m2, db2),
      Reaches.then_step _ _ _
          (Reaches.then_step _ _ _
            (Reaches.then_step _ _ _
              (Reaches.then_step _ _ _ (Reaches.here ([], (m, db))) (Step.begin first [] m db))
              (Step.begin second (first ∷ []) m1 db))
            (Step.finish (first ∷ []) [] second m2 db))
          (Step.finish [] [] first m2 db1),
      rw (rule_of-set_rule kind node q (manager_set r m).rules, own_q) refl,
      rw (stored_rule-save_alert_rule laws r db1 sound1.0.works kind node, own_r) refl,
    )
