-- ===== src/Server/Tests.antt =====
-- Examples of the theorems on the server's rules.
use sounding.Prelude.{◌∷◌, some, length, keep, refl, true, [], bytes, float}
use sounding.Prelude.{◌≢◌, none, ok, err, pos, arith}
use sounding.Api.Admin.{State}
use sounding.Server.Steps.{
  start_alerts, Setup, Reaches, watch_store, at_time, here, then_step, watch, begin, finish, begun,
  written, save,
}
use sounding.Alert.Rules.{Rule, is_rule_of}
use sounding.Alert.RuleKeys.{rule_of}
use sounding.Server.Ordering.{running-Agree}
use sounding.Server.Race.{hooks-race}
use sounding.Server.Invariants.{IsSound, start_rules-IsSound}
use sounding.Samples.{env}
use sounding.Server.Rules.{start_rules}
use sounding.Server.Agreement.{Agree, stored_rule}
use sounding.Server.Start.{start_rules-Agree}
use sounding.Api.{Request}
use sounding.Api.Agent.{is_stranger}
use sounding.Store.Probes.{Task, is_task_of}
use sounding.Server.Routes.{says, is_alike, ChannelFlags, agent_config, agent_config-tasks, config}
use sounding.Prelude.{◌≡◌, false, Text, List, any, same, ◌&&◌}
use sounding.Samples.{rule, task, request, json, json-JsonLaws, db}

start_rules-Agree_example :
    Agree json (start_rules json true (float 200) db).0 (start_rules json true (float 200) db).1
start_rules-Agree_example = start_rules-Agree json-JsonLaws true (float 200) db refl tt

abbrev asking : Request
asking = request (bytes "GET") (bytes "/agent/config")

known : is_stranger [] asking ≡ false
unfolding is_stranger
known = refl

agent_config-tasks_example :
    (names : List Text) × (tasks : List Task) × (agent_config [] (bytes "n1") asking db
      ≡ (config names tasks, db))
    × (length tasks ≡ length (keep (is_task_of (bytes "n1")) db.probe_tasks))
    × (any (says (task 1 (bytes "n1") (bytes "dns"))) tasks
        ≡ any
            (λ t. is_task_of (bytes "n1") t && is_alike (task 1 (bytes "n1") (bytes "dns")) t)
            db.probe_tasks)
agent_config-tasks_example =
    agent_config-tasks [] (bytes "n1") (task 1 (bytes "n1") (bytes "dns")) asking db refl known

-- A server whose network does not answer.
abbrev setup : Setup
setup = record {
  env = env;
  agent_token = [];
  network = record {
    parse_ip = λ s. none;
    lookup_ip = λ s. err [];
    listen = λ s. err [];
    marshal = ok tt;
    write_to = λ s. ok tt;
    packets = λ s. [];
    dial = λ s. err [];
    new_request = λ s. err [];
    get = λ s. (0, err []);
    lookup_host = λ server host. (0, err []);
  };
  retain_days = pos 30;
}

abbrev no_channels : ChannelFlags
no_channels = record {
  alert_webhook = [];
  telegram_token = [];
  telegram_chat_id = [];
  ding_talk_webhook = [];
  ding_talk_secret = [];
  feishu_webhook = [];
  smtp_host = [];
  smtp_user = [];
  smtp_pass = [];
  smtp_from = [];
  smtp_to = [];
}

abbrev first : State
first = start_alerts json true (float 200) no_channels db

-- A hook begins, a round of the watcher goes by, and the hook writes.
abbrev after_round : State
after_round = watch_store (at_time env 9) (begun (save rule) first.0, first.1)

abbrev last : State
last = (after_round.0, written json (save rule) after_round.1)

abbrev three_steps : Reaches setup ([], first) ([], last)
three_steps =
    then_step ([], first) (save rule ∷ [], after_round) ([], last)
      (then_step ([], first) (save rule ∷ [], (begun (save rule) first.0, first.1))
        (save rule ∷ [], after_round)
        (then_step ([], first) ([], first) (save rule ∷ [], (begun (save rule) first.0, first.1))
          (here ([], first)) (begin (save rule) [] first.0 first.1))
        (watch 9 (save rule ∷ []) (begun (save rule) first.0) first.1))
      (finish [] [] (save rule) after_round.0 after_round.1)

n2-ne-n1 : bytes "n2" ≢ bytes "n1"
unfolding bytes
n2-ne-n1 h = ground arith

db-IsSound : IsSound db
db-IsSound = (record { works = refl; nodes = ((n2-ne-n1, tt), (tt, tt)); tasks = (tt, tt) }, tt)

running-Agree_example : Agree json last.0.rules last.1
running-Agree_example =
    running-Agree setup true (float 200) no_channels db last.1 last.0 json-JsonLaws db-IsSound
      three_steps (((tt, tt), tt), refl)

is_own : is_rule_of (bytes "loss") (bytes "*") rule ≡ true
unfolding is_rule_of same bytes
is_own = refl

first-IsSound : IsSound first.1
unfolding start_alerts
first-IsSound = start_rules-IsSound json-JsonLaws true (float 200) db db-IsSound

abbrev lower : Rule
lower = record rule { threshold = float 50 }

lower_own : is_rule_of (bytes "loss") (bytes "*") lower ≡ true
unfolding is_rule_of same bytes
lower_own = refl

hooks-race_example :
    (t : State) × Reaches setup ([], first) ([], t)
    × (rule_of (bytes "loss") (bytes "*") t.0.rules ≡ some lower)
    × (stored_rule json (bytes "loss") (bytes "*") t.1 ≡ some rule)
unfolding start_alerts
hooks-race_example =
    hooks-race setup (bytes "loss") (bytes "*") rule lower first.0 first.1 json-JsonLaws
      first-IsSound is_own lower_own
