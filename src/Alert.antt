-- ===== src/Alert.antt =====
-- internal/alert: the rules, the manager with its cooldown, and the watcher's events. The
-- definitions are in `Rules`, `Manager` and `Watcher`, the proofs in the other modules.
pub mod Rules
pub mod Manager
pub mod Watcher
pub mod RuleKeys
pub mod Delivery
pub mod Apart
pub mod Cooldown
pub mod Windows
mod Tests
