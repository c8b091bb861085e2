-- ===== src/Agent/Examples.antt =====
-- Two tasks for the examples.
use sounding.Prelude.{refl, bytes, same}
use sounding.Strings.{is_space}
use sounding.Agent.Probes.{RemoteTask, is_probe_type}
use sounding.Agent.Plain.{lacks, lacks-Lacks, IsPlain}

abbrev pub gateway : RemoteTask
gateway = record { name = bytes "gw"; target = bytes "10.0.0.1"; type = bytes "icmp" }

abbrev pub site : RemoteTask
site = record { name = bytes "site"; target = bytes "https://a.io:8443"; type = bytes "https" }

pub gateway-IsPlain : IsPlain gateway
unfolding bytes is_probe_type same is_space lacks
gateway-IsPlain = record {
  trimmed_name = (refl, refl);
  trimmed_target = (refl, refl);
  one_part = (lacks-Lacks b',' (bytes "gw") refl, lacks-Lacks b',' (bytes "10.0.0.1") refl);
  no_colon = lacks-Lacks b':' (bytes "gw") refl;
  typed = refl;
}

pub site-IsPlain : IsPlain site
unfolding bytes is_probe_type same is_space lacks
site-IsPlain = record {
  trimmed_name = (refl, refl);
  trimmed_target = (refl, refl);
  one_part =
      (lacks-Lacks b',' (bytes "site") refl, lacks-Lacks b',' (bytes "https://a.io:8443") refl);
  no_colon = lacks-Lacks b':' (bytes "site") refl;
  typed = refl;
}
