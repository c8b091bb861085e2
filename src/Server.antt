-- ===== src/Server.antt =====
-- cmd/server/main.go: how the server connects the parts.
pub mod Rules
pub mod Routes
pub mod Pages
pub mod PageLaws
pub mod Pipeline
mod PageTests
mod PipelineTests
pub mod Agreement
pub mod Start
mod Tests
pub mod Steps
pub mod Kept
pub mod AdminKept
pub mod Invariants
pub mod Ordering
pub mod Race
