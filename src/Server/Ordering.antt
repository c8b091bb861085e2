-- ===== src/Server/Ordering.antt =====
-- cmd/server/main.go: the two calls of a hook of the administrator, and what their order means for the agreement of
-- the manager's rules with the table.
use mathlib.Core.List.{cons-ne-nil}
use mathlib.Core.Option
use sounding.Prelude.{◌≡◌, refl, sym, ap, ◌∙◌, Bool, List, [], ◌∷◌, ◌++◌, Float}
use sounding.Prelude.Table.{find_row}
use sounding.Json.{Json}
use sounding.Alert.RuleKeys.{rule_of}
use sounding.Alert.Manager.{Manager, manager_set}
use sounding.Store.Db.{Db, rule_key}
use sounding.Store.Rules.{rule_of_row}
use sounding.Api.AdminAgreement.{delete_alert_rule_lem}
use sounding.Api.Admin.{State}
use sounding.Server.Rules.{set_alert, delete_alert}
use sounding.Server.Routes.{ChannelFlags}
use sounding.Server.Start.{start_rules-Agree}
use sounding.Server.Agreement.{
  JsonLaws, Agree, save_alert_rule_lem, set_alert-Agree, delete_alert-Agree,
}
use sounding.Server.Kept.{agent_serve-IsKeptKeyed, retention_tick-IsKeptKeyed}
use sounding.Server.AdminKept.{serve_nodes-IsKept, serve_probes-IsKept}
use sounding.Server.Invariants.{
  IsSound, IsQuiet, written-IsSound, kept-IsSound, watch_store-IsQuiet, run_task-IsKeptKeyed,
  rpc_serve-IsKeptKeyed, start_rules-IsSound,
}
use sounding.Server.Steps.{
  Setup, Write, Running, Step, Reaches, begun, written, start_alerts, at_time,
}

-- The database once the writes are done, the oldest first.
abbrev pub settled : Json → List Write → Db → Db
settled j [] db = db
settled j (w ∷ ws) db = settled j ws (written j w db)

settled-append :
    (j : Json) (ws : List Write) (w : Write) (db : Db)
    → settled j (ws ++ w ∷ []) db ≡ written j w (settled j ws db)
settled-append j [] w db = refl
settled-append j (v ∷ ws) w db = settled-append j ws w (written j v db)

-- The manager agrees with what the table will hold.
pub record IsSettling (j : Json) (s : Running) : Type 0 where
  pub sound : IsSound s.1.1
  pub agree : Agree j s.1.0.rules (settled j s.0 s.1.1)

module _ {j : Json} (laws : JsonLaws j) where
  settled-IsSound : (ws : List Write) (db : Db) → IsSound db → IsSound (settled j ws db)
  settled-IsSound [] db h = h
  settled-IsSound (w ∷ ws) db h = settled-IsSound ws (written j w db) (written-IsSound laws w db h)

  -- A write acts on the table of rules alone.
  written-rules :
      (w : Write) (a b : Db)
      → IsSound a
      → IsSound b
      → a.alert_rules ≡ b.alert_rules
      → (written j w a).alert_rules ≡ (written j w b).alert_rules
  unfolding written
  written-rules (Write.save r) a b h k e =
      rw
        (written, save_alert_rule_lem laws r a h.0.works, save_alert_rule_lem laws r b k.0.works, e)
        refl
  written-rules (Write.remove kind node) a b h k e =
      rw
        (
          written,
          delete_alert_rule_lem kind node a h.0.works,
          delete_alert_rule_lem kind node b k.0.works,
          e,
        )
        refl

  settled-rules :
      (ws : List Write) (a b : Db)
      → IsSound a
      → IsSound b
      → a.alert_rules ≡ b.alert_rules
      → (settled j ws a).alert_rules ≡ (settled j ws b).alert_rules
  settled-rules [] a b h k e = e
  settled-rules (w ∷ ws) a b h k e =
      settled-rules ws (written j w a) (written j w b) (written-IsSound laws w a h)
        (written-IsSound laws w b k) (written-rules w a b h k e)

  quiet-IsSettling :
      (ws : List Write) (s t : State) → IsQuiet s t → IsSettling j (ws, s) → IsSettling j (ws, t)
  quiet-IsSettling ws (m, db) (m', db') (same_rules, kept) h =
      let sound = kept-IsSound db db' h.sound kept in
      record {
        sound = sound;
        agree = λ kind node.
            ap (rule_of kind node) same_rules
            ∙ h.agree kind node
            ∙ ap (λ rows. Option.map (rule_of_row j) (find_row rule_key (kind, node) rows))
                (settled-rules ws db db' h.sound sound (sym kept.0));
      }

  begun-Agree :
      (w : Write) (m : Manager) (db : Db)
      → IsSound db
      → Agree j m.rules db
      → Agree j (begun w m).rules (written j w db)
  unfolding begun written set_alert delete_alert
  begun-Agree (Write.save r) m db h agree = set_alert-Agree laws r db h.0.works m agree
  begun-Agree (Write.remove kind node) m db h agree =
      delete_alert-Agree j kind node db h.0.works m agree

  begin-IsSettling :
      (w : Write) (ws : List Write) (m : Manager) (db : Db)
      → IsSettling j (ws, (m, db))
      → IsSettling j (ws ++ w ∷ [], (begun w m, db))
  begin-IsSettling w ws m db h = record {
    sound = h.sound;
    agree =
        rw (settled-append j ws w db)
          (begun-Agree w m (settled j ws db) (settled-IsSound ws db h.sound) h.agree);
  }

  finish-IsSettling :
      (older newer : List Write) (w : Write) (m : Manager) (db : Db)
      → older ≡ []
      → IsSettling j (older ++ w ∷ newer, (m, db))
      → IsSettling j (older ++ newer, (m, written j w db))
  finish-IsSettling [] newer w m db e h = record {
    sound = written-IsSound laws w db h.sound;
    agree = h.agree;
  }
  finish-IsSettling (v ∷ older) newer w m db e h = absurd (cons-ne-nil v older e)

module _ (srv : Setup) where
  -- A step that writes does the oldest write.
  abbrev pub IsOldest : (s t : Running) → Step srv s t → Type 0
  IsOldest s t (Step.agent now r ws m db) = Unit
  IsOldest s t (Step.nodes now r ws m db) = Unit
  IsOldest s t (Step.probes now r ws m db) = Unit
  IsOldest s t (Step.rpc handler body ws m db) = Unit
  IsOldest s t (Step.watch now ws m db) = Unit
  IsOldest s t (Step.probe now r ws m db) = Unit
  IsOldest s t (Step.retain now ws m db) = Unit
  IsOldest s t (Step.begin w ws m db) = Unit
  IsOldest s t (Step.finish older newer w m db) = older ≡ []

  -- The hooks write in the order in which they changed the manager.
  abbrev pub IsInOrder : (s t : Running) → Reaches srv s t → Type 0
  IsInOrder s t (Reaches.here s') = Unit
  IsInOrder s u (Reaches.then_step s' t u' reached step) =
      IsInOrder s' t reached × IsOldest t u' step

  Step-IsSettling :
      (laws : JsonLaws srv.env.json) (s t : Running) (step : Step srv s t)
      → IsOldest s t step
      → IsSettling srv.env.json s
      → IsSettling srv.env.json t
  Step-IsSettling laws s t (Step.agent now r ws m db) o h =
      quiet-IsSettling laws ws (m, db) _
        (refl, agent_serve-IsKeptKeyed (at_time srv.env now) srv.agent_token r db h.sound.0) h
  Step-IsSettling laws s t (Step.nodes now r ws m db) o h =
      let (same_manager, kept) = serve_nodes-IsKept (at_time srv.env now) m db h.sound.0 r in
      quiet-IsSettling laws ws (m, db) _ (ap (λ (n : Manager). n.rules) same_manager, kept) h
  Step-IsSettling laws s t (Step.probes now r ws m db) o h =
      let (same_manager, kept) = serve_probes-IsKept (at_time srv.env now) m db h.sound.0 r in
      quiet-IsSettling laws ws (m, db) _ (ap (λ (n : Manager). n.rules) same_manager, kept) h
  Step-IsSettling laws s t (Step.rpc handler body ws m db) o h =
      quiet-IsSettling laws ws (m, db) _ (refl, rpc_serve-IsKeptKeyed handler body db h.sound.0) h
  Step-IsSettling laws s t (Step.watch now ws m db) o h =
      quiet-IsSettling laws ws (m, db) _ (watch_store-IsQuiet (at_time srv.env now) m db h.sound.0)
        h
  Step-IsSettling laws s t (Step.probe now r ws m db) o h =
      quiet-IsSettling laws ws (m, db) _ (refl, run_task-IsKeptKeyed srv now r db h.sound.0) h
  Step-IsSettling laws s t (Step.retain now ws m db) o h =
      quiet-IsSettling laws ws (m, db) _
        (refl, retention_tick-IsKeptKeyed srv.env.zone now srv.retain_days db h.sound.0) h
  Step-IsSettling laws s t (Step.begin w ws m db) o h = begin-IsSettling laws w ws m db h
  Step-IsSettling laws s t (Step.finish older newer w m db) o h =
      finish-IsSettling laws older newer w m db o h

  Reaches-IsSettling :
      (laws : JsonLaws srv.env.json) (s t : Running) (reached : Reaches srv s t)
      → IsInOrder s t reached
      → IsSettling srv.env.json s
      → IsSettling srv.env.json t
  Reaches-IsSettling laws s t (Reaches.here s') o h = h
  Reaches-IsSettling laws s u (Reaches.then_step s' t u' reached step) (o, oldest) h =
      Step-IsSettling laws t u' step oldest (Reaches-IsSettling laws s' t reached o h)

-- If the server starts on a database that works and whose tables have unique keys, and its hooks write the table in
-- the order in which they changed the manager, then whenever no hook is between its two calls, the manager's
-- rules agree with the table of rules, whatever else the server did in between.
pub running-Agree :
    (srv : Setup) (offline : Bool) (latency : Float) (flags : ChannelFlags) (db db' : Db)
    (m : Manager)
    → JsonLaws srv.env.json
    → IsSound db
    → (reached : Reaches srv
        ([], start_alerts srv.env.json offline latency flags db)
        ([], (m, db')))
    → IsInOrder srv ([], start_alerts srv.env.json offline latency flags db) ([], (m, db')) reached
    → Agree srv.env.json m.rules db'
unfolding start_alerts
running-Agree srv offline latency flags db db' m laws h reached o =
    let start : IsSettling srv.env.json ([], start_alerts srv.env.json offline latency flags db) =
      record {
        sound = start_rules-IsSound laws offline latency db h;
        agree =
            unfold sounding.Alert.Manager.new_manager in
            start_rules-Agree laws offline latency db h.0.works h.1;
      } in
    (Reaches-IsSettling srv laws ([], start_alerts srv.env.json offline latency flags db)
      ([], (m, db')) reached o start).agree
