-- ===== src/Store.antt =====
-- internal/store: the tables of the database and the statements on them. `Db` has the tables and the
-- monad of statements; the modules named for tables have the operations; the others the proofs.
pub mod Db
pub mod Reads
pub mod Keys
pub mod Seeds
pub mod Opening
pub mod SeedLaws
pub mod OpeningLaws
pub mod Nodes
pub mod NodeLaws
pub mod Probes
pub mod ProbeLaws
pub mod Deletion
pub mod Records
pub mod RecordLaws
pub mod Rules
pub mod SecretLaws
mod Tests
pub mod Secrets
pub mod Status
pub mod StatusLaws
