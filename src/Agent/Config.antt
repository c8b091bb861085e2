-- ===== src/Agent/Config.antt =====
-- cmd/agent/config.go and main.go: the settings of the agent, from flags, the environment, and a file
-- that is read again when it changes. The formats of YAML and of durations are parameters.
use sounding.Prelude.{
  zero, suc, ◌*◌, ◌≡◌, refl, false, Option, none, some, List, [], ◌∷◌, ◌++◌, Text, bytes, is_empty,
  ltb, if◌then◌else◌, or_else, arith, Option-cases, Bool-cases, inl, inr, ◌⊎◌, ap,
}
use sounding.Strings.{join}
use sounding.Clock.{Time, Duration, second}
use sounding.Contract.{ProbeTarget}
use sounding.Agent.Probes.{parse_probes}

pub record FileConfig : Type 0 where
  pub server : Text
  pub token : Text
  pub node_uuid : Text
  pub interval : Text
  pub probes : List Text

-- `yaml.Unmarshal` and `time.ParseDuration`.
pub record Formats : Type 0 where
  pub parse_yaml : Text → Option FileConfig
  pub parse_duration : Text → Option Duration

-- What the file system has at the path: `os.ReadFile` and the time of `os.Stat`, if they work.
pub record FileState : Type 0 where
  pub contents : Option Text
  pub mod_time : Option Time

pub record ConfigStore : Type 0 where
  pub cfg : FileConfig
  pub last_mod : Time

-- Settings that were read, with the time of the file if there is one.
unfoldable pub adopt : FileState → FileConfig → ConfigStore → ConfigStore
adopt file f cs = elim file.mod_time [
  | none ↦ record { cfg = f; last_mod = cs.last_mod }
  | some t ↦ record { cfg = f; last_mod = t }
]

unfoldable pub adopt_parsed : FileState → Option FileConfig → ConfigStore → ConfigStore
unfolding adopt
adopt_parsed file none cs = cs
adopt_parsed file (some f) cs = adopt file f cs

-- `reload`: a file that is missing or that does not parse changes nothing.
unfoldable pub reload : Formats → FileState → ConfigStore → ConfigStore
unfolding adopt_parsed
reload fm file cs = elim file.contents [
  | none ↦ cs
  | some text ↦ adopt_parsed file (fm.parse_yaml text) cs
]

-- `reloadIfChanged`
unfoldable pub reload_if_changed : Formats → FileState → ConfigStore → ConfigStore
unfolding reload
reload_if_changed fm file cs = elim file.mod_time [
  | none ↦ cs
  | some t ↦ if ltb cs.last_mod t then reload fm file cs else cs
]

-- `Interval`, zero if there is none that can be read.
unfoldable pub file_interval : Formats → ConfigStore → Duration
file_interval fm cs =
    if is_empty cs.cfg.interval
    then 0
    else elim (fm.parse_duration cs.cfg.interval) [ none ↦ 0 | some d ↦ d ]

-- `Probes`
unfoldable pub file_probes : ConfigStore → Text
file_probes cs = join b',' cs.cfg.probes

unfoldable pub pick : List Text → Text
pick [] = []
pick (v ∷ vs) = or_else v (pick vs)

unfoldable pub pick_duration : List Duration → Duration
pick_duration [] = 0
pick_duration (zero ∷ vs) = pick_duration vs
pick_duration (suc d ∷ vs) = suc d

-- `envDuration`, of the variable's value.
unfoldable pub env_duration : Formats → Text → Duration
env_duration fm [] = 0
env_duration fm (c ∷ v) = elim (fm.parse_duration (c ∷ v)) [ none ↦ 0 | some d ↦ d ]

-- The values of the flags or of the environment's variables.
pub record Given : Type 0 where
  pub server : Text
  pub token : Text
  pub node_uuid : Text
  pub probes : Text

unfoldable pub resolve_server : Given → Given → ConfigStore → Text
unfolding pick
resolve_server flags env cs =
    pick (flags.server ∷ env.server ∷ cs.cfg.server ∷ bytes "http://localhost:8080" ∷ [])

unfoldable pub resolve_token : Given → Given → ConfigStore → Text
unfolding pick
resolve_token flags env cs =
    pick (flags.token ∷ env.token ∷ cs.cfg.token ∷ bytes "sounding-demo-token" ∷ [])

unfoldable pub resolve_probes : Given → Given → ConfigStore → Text
unfolding pick file_probes
resolve_probes flags env cs = pick (flags.probes ∷ env.probes ∷ file_probes cs ∷ [] ∷ [])

-- The name of the node, which is the machine's if none is set.
unfoldable pub resolve_uuid : Given → Given → ConfigStore → Text → Text
unfolding pick
resolve_uuid flags env cs host_name =
    or_else (pick (flags.node_uuid ∷ env.node_uuid ∷ cs.cfg.node_uuid ∷ [] ∷ [])) host_name

unfoldable pub resolve_interval : Formats → Duration → Text → ConfigStore → Duration
unfolding pick_duration env_duration file_interval
resolve_interval fm flag env cs =
    pick_duration (flag ∷ env_duration fm env ∷ file_interval fm cs ∷ 15 * second ∷ [])

-- The targets of a report: the server's text of probes before the agent's own.
unfoldable pub reported_targets : Text → Given → Given → ConfigStore → List ProbeTarget
unfolding resolve_probes
reported_targets remote flags env cs = parse_probes (remote ++ b',' ∷ resolve_probes flags env cs)

module _ (fm : Formats) (file : FileState) where
  -- A poll changes nothing if the file is no newer than the one that was read.
  poll_old :
      (t : Time) (cs : ConfigStore)
      → file.mod_time ≡ some t
      → ltb cs.last_mod t ≡ false
      → reload_if_changed fm file cs ≡ cs
  unfolding reload_if_changed
  poll_old t cs dated old = rw (dated, old) refl

  -- A poll changes nothing, or remembers the time of the file.
  poll-cases :
      (cs : ConfigStore)
      → (reload_if_changed fm file cs ≡ cs)
        ⊎ ((t : Time) × (file.mod_time ≡ some t) × ((reload_if_changed fm file cs).last_mod ≡ t))
  unfolding reload_if_changed reload adopt_parsed adopt
  poll-cases cs = elim (Option-cases file.mod_time) [
    | inl unknown ↦ inl (rw unknown refl)
    | inr (t, dated) ↦ elim (Bool-cases (ltb cs.last_mod t)) [
      | inr old ↦ inl (poll_old t cs dated old)
      | inl newer ↦ elim (Option-cases file.contents) [
        | inl missing ↦ inl (rw (dated, newer, missing) refl)
        | inr (text, present) ↦ elim (Option-cases (fm.parse_yaml text)) [
          | inl bad ↦ inl (rw (dated, newer, present, bad) refl)
          | inr (f, good) ↦ inr (t, dated, rw (dated, newer, present, good) refl)
        ]
      ]
    ]
  ]

  -- Polling a file that does not change between two polls has no effect after the first, whether the
  -- file is missing, does not parse, or is read.
  reload_if_changed_idempotent :
      (cs : ConfigStore)
      → reload_if_changed fm file (reload_if_changed fm file cs) ≡ reload_if_changed fm file cs
  reload_if_changed_idempotent cs = elim (poll-cases cs) [
    | inl same_state ↦ ap (reload_if_changed fm file) same_state
    | inr (t, dated, read) ↦ poll_old t (reload_if_changed fm file cs) dated (ground (arith, read))
  ]
