-- ===== src/Rpc.antt =====
-- internal/api: JSON-RPC, which the theme of the site calls. `Types` has the requests and the replies,
pub mod Types
pub mod Tasks
pub mod Settings
pub mod Metrics
pub mod Records
pub mod Dispatch
pub mod Socket
pub mod Reads
pub mod MethodNames
pub mod DispatchLaws
pub mod TaskLaws
pub mod MetricLaws
pub mod Numbers
mod Tests
