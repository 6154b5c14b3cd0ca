-- ===== src/Updater.antt =====
-- internal/updater: the decisions of the watcher and its run over the containers.
pub mod Policy
pub mod Identifiers
pub mod Marks
pub mod Health
pub mod Rollback
pub mod Watcher
pub mod Schedule
pub mod Fixture
mod Tests
