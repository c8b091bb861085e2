-- ===== src/Server/Routes.antt =====
-- cmd/server/main.go: the secrets and channels at the start, the answer of /agent/config, and what
-- /healthz asks for.
use sounding.Prelude.{
  ◌≡◌, refl, ◌∙◌, ◌==◌, true, length, length-sort_by, Bool, false, not, ◌&&◌, List, [], ◌∷◌, ◌++◌,
  map, Text, bytes, any, same, is_empty, if◌then◌else◌, Result, ok, err, any_laws, sort_by, keep,
}
use sounding.Strings.{split}
use sounding.Notify.{Notifier}
use sounding.Store.Db.{Db, M, TaskRow, statement}
use sounding.Store.Nodes.{nodes}
use sounding.Store.Probes.{Task, leb_id, probe_tasks, admin_probe_task_names, is_task_of, task_of}
use sounding.Store.Secrets.{get_or_create_secret}
use sounding.Api.{Request, Response, refused, answered, Answer}
use sounding.Api.Agent.{is_stranger}

-- The flags of the channels.
pub record ChannelFlags : Type 0 where
  pub alert_webhook : Text
  pub telegram_token : Text
  pub telegram_chat_id : Text
  pub ding_talk_webhook : Text
  pub ding_talk_secret : Text
  pub feishu_webhook : Text
  pub smtp_host : Text
  pub smtp_user : Text
  pub smtp_pass : Text
  pub smtp_from : Text
  pub smtp_to : Text

abbrev when : Bool → Notifier → List Notifier
when b n = if b then n ∷ [] else []

-- The channels whose flags are given, in their order.
unfoldable pub notifiers_of : ChannelFlags → List Notifier
notifiers_of f =
    when (not (is_empty f.alert_webhook)) (Notifier.webhook f.alert_webhook)
    ++ when (not (is_empty f.telegram_token) && not (is_empty f.telegram_chat_id))
        (Notifier.telegram f.telegram_token f.telegram_chat_id)
    ++ when (not (is_empty f.ding_talk_webhook))
        (Notifier.ding_talk f.ding_talk_webhook f.ding_talk_secret)
    ++ when (not (is_empty f.feishu_webhook)) (Notifier.feishu f.feishu_webhook)
    ++ when (not (is_empty f.smtp_host) && not (is_empty f.smtp_from) && not (is_empty f.smtp_to))
        (Notifier.email f.smtp_host f.smtp_user f.smtp_pass f.smtp_from (split b',' f.smtp_to))

-- `ensureSecret`: the flag's value, or else the stored or a fresh secret; the server stops at an error.
unfoldable pub ensure_secret : Text → Text → Text → M Text
ensure_secret fresh [] key db =
    let (res, db') = get_or_create_secret fresh key db in
    (elim res [ ok v ↦ ok v.0 | err e ↦ err e ], db')
ensure_secret fresh (c ∷ given) key db = (ok (c ∷ given), db)

-- The answer of /agent/config.
pub data Config : Type 0 where
  rejected : Response → Config
  config : (probe_names : List Text) → (tasks : List Task) → Config

tasks_or_none : Result (List Task) → List Task
tasks_or_none (ok ts) = ts
tasks_or_none (err e) = []

with_names : Text → Result (List Text) × Db → Config × Db
unfolding tasks_or_none
with_names uuid (err e, db) = (rejected (refused 500 e), db)
with_names uuid (ok names, db) =
    let (tasks, db') = probe_tasks uuid db in (config names (tasks_or_none tasks), db')

-- The handler of /agent/config, for the uuid of the query.
unfoldable pub agent_config : Text → Text → Request → Db → Config × Db
unfolding is_stranger with_names
agent_config token uuid r db =
    if is_stranger token r
    then (rejected (refused 401 (bytes "unauthorized")), db)
    else with_names uuid (admin_probe_task_names uuid db)

-- `HealthEndpoint` with the server's `Ready`.
unfoldable pub health : Db → Response × Db
health db =
    let (res, db') = nodes db in
    (
      elim res [ ok ns ↦ answered Answer.healthy | err e ↦ refused 503 (bytes "not ready: " ++ e) ],
      db',
    )

names_answered :
    (uuid : Text) (db : Db)
    → db.faults ≡ []
    → (names : List Text) × (admin_probe_task_names uuid db ≡ (ok names, db))
unfolding admin_probe_task_names statement
names_answered uuid db works =
    (map (λ (t : TaskRow). t.name) (keep (λ t. same t.client uuid) db.probe_tasks), rw works refl)

abbrev offered : Text → Db → List Task
offered uuid db = map task_of (sort_by leb_id (keep (is_task_of uuid) db.probe_tasks))

tasks_answered :
    (uuid : Text) (db : Db) → db.faults ≡ [] → probe_tasks uuid db ≡ (ok (offered uuid db), db)
unfolding probe_tasks statement
tasks_answered uuid db works = rw works refl

abbrev pub same_bool : Bool → Bool → Bool
same_bool true b = b
same_bool false b = not b

-- Two rows with the same id, name, target and type, both enabled or neither.
abbrev pub is_alike : TaskRow → TaskRow → Bool
is_alike row t =
    t.id == row.id
    && same t.name row.name
    && same t.target row.target
    && same t.type row.type
    && same_bool (t.enabled == 1) (row.enabled == 1)

length-map : {A B : Type 0} (f : A → B) (xs : List A) → length (map f xs) ≡ length xs
length-map f [] = refl
length-map f (x ∷ xs) = rw (length-map f xs) refl

-- A task of the answer says of a row what the agent and the scheduler read of it.
abbrev pub says : TaskRow → Task → Bool
says row t =
    t.id == row.id
    && same t.name row.name
    && same t.target row.target
    && same t.type row.type
    && same_bool t.enabled (row.enabled == 1)

-- On a database that works, an agent that is let through is told of as many tasks as the table has for all clients
-- and for its own, disabled ones included, and of no others: whatever the row, a task with its id, name, target and
-- type, and enabled as it is, is in the answer exactly if such a row is one of these. The database stays as it is.
pub agent_config-tasks :
    (token uuid : Text) (row : TaskRow) (r : Request) (db : Db)
    → db.faults ≡ []
    → is_stranger token r ≡ false
    → (names : List Text) × (tasks : List Task) × (agent_config token uuid r db
        ≡ (config names tasks, db))
      × (length tasks ≡ length (keep (is_task_of uuid) db.probe_tasks))
      × (any (says row) tasks ≡ any (λ t. is_task_of uuid t && is_alike row t) db.probe_tasks)
unfolding agent_config task_of
agent_config-tasks token uuid row r db works known =
    let (names, e) = names_answered uuid db works in
    (
      names,
      offered uuid db,
      rw (known, e) (rw (tasks_answered uuid db works) refl),
      length-map task_of (sort_by leb_id (keep (is_task_of uuid) db.probe_tasks))
          ∙ length-sort_by leb_id (keep (is_task_of uuid) db.probe_tasks),
      simp any_laws,
    )
