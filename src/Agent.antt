-- ===== src/Agent.antt =====
-- cmd/agent: the probes that an agent is told to report (`Probes`), its settings (`Config`, `Watching`), its reports (`Report`) and the
-- proofs about the text in which the server hands probes out (`Plain`, `RoundTrip`, `Parsed`).
pub mod Probes
pub mod Config
pub mod Watching
pub mod Report
pub mod ReportLaws
pub mod Parsed
pub mod Plain
pub mod RoundTrip
pub mod Examples
mod Tests
