-- ===== src/Db.antt =====
-- The state that the services share: the SQLite tables (migrations/*.sql) as lists of rows in
-- insertion order, the in-memory queue of queue/manager.rs, and the retries that sleep.
-- The repositories of db/*.rs are the child modules; each statement is executed atomically.
pub mod JobRepository
pub mod ExecutionRepository
pub mod QueueRepository
pub mod DagRepository
pub mod DagTable
pub mod ScheduleRepository
pub mod PackageRepository
pub mod VenvRepository
mod State
pub use State.*
