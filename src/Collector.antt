-- ===== src/Collector.antt =====
-- internal/collect/collector.go: what the agent makes of the machine's counters. gopsutil reads the machine: each of its
-- calls gives a reading or an error, and an error is `none`.
pub mod Laws
mod Tests
use sounding.Prelude.{
  ℕ, zero, suc, ◌+◌, ◌-◌, ◌*◌, ◌/◌, Bool, true, false, ◌&&◌, Option, none, some, List, [], ◌∷◌,
  ◌++◌, Text, bytes, is_empty, or_else, ltb, leb, if◌then◌else◌, Float, float, pos, ltb_float,
}
use sounding.Clock.{Time, Duration}
use sounding.Contract.{AgentStatus}
use sounding.Store.Nodes.{OsInfo}

-- Used and total bytes.
pub record Usage : Type 0 where
  pub used : ℕ
  pub total : ℕ

pub record LoadAverage : Type 0 where
  pub load1 : Float
  pub load5 : Float
  pub load15 : Float

pub record Counters : Type 0 where
  pub bytes_sent : ℕ
  pub bytes_recv : ℕ

-- The readings of one call of `Collect`.
pub record Readings : Type 0 where
  pub memory : Option Usage
  pub swap : Option Usage
  pub disk : Option Usage
  pub load : Option LoadAverage
  pub temperatures : Option (List Float)
  pub now : Time
  pub counters : Option (List Counters)
  pub pids : Option ℕ
  pub uptime : Option ℕ
  pub percent : Option (List Float)

-- `last_net_time` is none for the zero time.
pub record Collector : Type 0 where
  pub interval : Duration
  pub last_net_up : ℕ
  pub last_net_down : ℕ
  pub last_net_time : Option Time

unfoldable pub new_collector : Duration → Collector
new_collector interval = record {
  interval = interval;
  last_net_up = 0;
  last_net_down = 0;
  last_net_time = none;
}

-- A field of a reading, or zero after an error.
abbrev reading : {A : Type 0} → (A → Float) → Option A → Float
reading f none = pos 0
reading f (some a) = f a

unfoldable pub hottest : Float → List Float → Float
hottest t [] = t
hottest t (u ∷ us) = hottest (if ltb_float t u then u else t) us

-- Bytes in a second: a number of bytes over a number of nanoseconds.
unfoldable pub byte_rate : ℕ → Duration → Float
byte_rate n elapsed = pos (n * 1_000_000_000_000 / elapsed)

-- The rates since the last sample. Without one, or after a counter went back, there are none.
unfoldable pub net_rates : Collector → Time → Counters → Float × Float
unfolding byte_rate
net_rates c now io = elim c.last_net_time [
  | none ↦ (pos 0, pos 0)
  | some last ↦
      if ltb last now && leb c.last_net_up io.bytes_sent && leb c.last_net_down io.bytes_recv
      then (
        byte_rate (io.bytes_sent - c.last_net_up) (now - last),
        byte_rate (io.bytes_recv - c.last_net_down) (now - last),
      )
      else (pos 0, pos 0)
]

pub record NetUsage : Type 0 where
  pub rate_out : Float
  pub rate_in : Float
  pub total_up : Float
  pub total_down : Float

-- The first interface's counters, which are those of all.
unfoldable pub net_usage : Collector → Time → Option (List Counters) → NetUsage × Collector
unfolding net_rates
net_usage c now (some (io ∷ rest)) =
    let (up, down) = net_rates c now io in
    (
      record {
        rate_out = up;
        rate_in = down;
        total_up = float io.bytes_sent;
        total_down = float io.bytes_recv;
      },
      record c {
        last_net_up = io.bytes_sent;
        last_net_down = io.bytes_recv;
        last_net_time = some now;
      },
    )
net_usage c now (some []) =
    (record { rate_out = pos 0; rate_in = pos 0; total_up = pos 0; total_down = pos 0 }, c)
net_usage c now none =
    (record { rate_out = pos 0; rate_in = pos 0; total_up = pos 0; total_down = pos 0 }, c)

abbrev first_or_zero : List Float → Float
first_or_zero [] = pos 0
first_or_zero (v ∷ vs) = v

-- `Collect`; a Snapshot has the fields of the server's AgentStatus.
unfoldable pub collect : Readings → Collector → AgentStatus × Collector
unfolding net_usage hottest
collect r c =
    let (net, c') = net_usage c r.now r.counters in
    (
      record {
        cpu = reading first_or_zero r.percent;
        ram = reading (λ u. float u.used) r.memory;
        swap = reading (λ u. float u.used) r.swap;
        load = reading (λ l. l.load1) r.load;
        disk = reading (λ u. float u.used) r.disk;
        net_in = net.rate_in;
        net_out = net.rate_out;
        net_total_up = net.total_up;
        net_total_down = net.total_down;
        process = reading (λ n. float n) r.pids;
        connections = pos 0;
        connections_udp = pos 0;
        temp = reading (hottest (pos 0)) r.temperatures;
        load5 = reading (λ l. l.load5) r.load;
        load15 = reading (λ l. l.load15) r.load;
        ram_total = reading (λ u. float u.total) r.memory;
        swap_total = reading (λ u. float u.total) r.swap;
        disk_total = reading (λ u. float u.total) r.disk;
        uptime = reading (λ n. float n) r.uptime;
      },
      c',
    )

-- `host.Info`, `cpu.Counts(true)`, the model names of `cpu.Info`, and the architecture of the build.
pub record HostInfo : Type 0 where
  pub hostname : Text
  pub platform : Text
  pub platform_version : Text
  pub kernel_arch : Text
  pub kernel_version : Text
  pub virtualization_system : Text
  pub virtualization_role : Text
  pub procs : ℕ

pub record OsReadings : Type 0 where
  pub host : Option HostInfo
  pub counts : Option ℕ
  pub models : Option (List Text)
  pub memory : Option Usage
  pub swap : Option Usage
  pub disk : Option Usage
  pub goarch : Text

-- A field of the host, or the empty text.
abbrev host_text : (HostInfo → Text) → Option HostInfo → Text
host_text f none = []
host_text f (some h) = f h

unfoldable pub virtualization_of : HostInfo → Text
virtualization_of h =
    if is_empty h.virtualization_role
    then h.virtualization_system
    else h.virtualization_system ++ b'/' ∷ h.virtualization_role

unfoldable pub cores_of : Option ℕ → Option HostInfo → Float
cores_of (some zero) h = reading (λ h. float h.procs) h
cores_of (some (suc n)) h = float (suc n)
cores_of none h = reading (λ h. float h.procs) h

abbrev first_or_empty : Option (List Text) → Text
first_or_empty (some (m ∷ ms)) = m
first_or_empty (some []) = []
first_or_empty none = []

-- `GetOSInfo`
unfoldable pub get_os_info : OsReadings → OsInfo
unfolding virtualization_of cores_of
get_os_info r = record {
  host_name = host_text (λ h. or_else h.hostname (bytes "sounding-agent")) r.host;
  cpu_name = or_else (first_or_empty r.models) r.goarch;
  arch = or_else (host_text (λ h. h.kernel_arch) r.host) r.goarch;
  os = host_text (λ h. h.platform ++ b' ' ∷ h.platform_version) r.host;
  kernel_version = host_text (λ h. h.kernel_version) r.host;
  virtualization = host_text virtualization_of r.host;
  region = [];
  cpu_cores = cores_of r.counts r.host;
  mem_total = reading (λ u. float u.total) r.memory;
  swap_total = reading (λ u. float u.total) r.swap;
  disk_total = reading (λ u. float u.total) r.disk;
}
