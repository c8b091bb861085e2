-- ===== src/Agent/Tests.antt =====
-- Concrete runs of the agent's text of probes.
use sounding.Prelude.{◌≡◌, refl, [], ◌∷◌, bytes, same, same_iff}
use sounding.Strings.{trim_space, to_lower, split, cut_at, join}
use sounding.Agent.Probes.{target_of, remote_probes, parse_probes, probe_key}
use sounding.Prelude.{none, some}
use sounding.Agent.Config.{FileConfig, Formats, FileState, ConfigStore, reload_if_changed}
use sounding.Agent.Parsed.{HasDistinctTargets}
use sounding.Agent.Examples.{gateway, gateway-IsPlain, site, site-IsPlain}
use sounding.Agent.Plain.{task_target}
use sounding.Agent.RoundTrip.{parse_probes-remote_probes}

differ : HasDistinctTargets (task_target gateway ∷ task_target site ∷ [])
unfolding bytes probe_key same
differ = (
  (λ e. cc ((same_iff (probe_key (task_target site)) (probe_key (task_target gateway))).1 e), tt),
  (tt, tt),
)

parse_probes_text :
    parse_probes (bytes " gw:ICMP:10.0.0.1 ,,x, gw:10.0.0.1,web:a.io:80")
    ≡ target_of (bytes "gw") (bytes "10.0.0.1") (bytes "icmp")
      ∷ target_of (bytes "web") (bytes "a.io:80") []
      ∷ []
unfolding parse_probes bytes trim_space to_lower split cut_at same join
parse_probes_text = refl

-- A URL behind the name is cut at its colon.
parse_probes_url :
    parse_probes (bytes "web:https://a.io")
    ≡ target_of (bytes "web") (bytes "//a.io") (bytes "https") ∷ []
unfolding parse_probes bytes trim_space to_lower split cut_at same join
parse_probes_url = refl

parse_probes-remote_probes_example :
    parse_probes (remote_probes (gateway ∷ site ∷ [])) ≡ task_target gateway ∷ task_target site ∷ []
parse_probes-remote_probes_example =
    parse_probes-remote_probes (gateway ∷ site ∷ []) (gateway-IsPlain, (site-IsPlain, tt)) differ

abbrev settings : FileConfig
settings = record {
  server = bytes "http://s";
  token = [];
  node_uuid = [];
  interval = [];
  probes = [];
}

abbrev formats : Formats
formats = record { parse_yaml = λ text. some settings; parse_duration = λ text. none }

abbrev file : FileState
file = record { contents = some (bytes "server: http://s"); mod_time = some 7 }

abbrev unread : ConfigStore
unread = record { cfg = record settings { server = [] }; last_mod = 0 }

file_is_read : (reload_if_changed formats file unread).cfg.server ≡ bytes "http://s"
unfolding reload_if_changed
file_is_read = refl
