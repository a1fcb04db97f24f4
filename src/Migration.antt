-- ===== src/Migration.antt =====
-- framework/database/migrator.go, migration_revert.go, migration_version.go and migration_lock.go:
-- the versions in names, the control table, migrating, rolling back and the lock.
pub mod Versions
pub mod Table
pub mod Running
pub mod Reverting
pub mod Complete
pub mod Baseline
pub mod Finished
pub mod Again
pub mod Undo
pub mod Roundtrip
pub mod Resetting
pub mod Order
pub mod Lock
pub mod Holding
pub mod Waiting
mod Tests
mod LockTests
