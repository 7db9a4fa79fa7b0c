-- ===== src/Model.antt =====
-- The entities of models/*.rs, their constructors and their methods: a module for each type.
pub mod Clock
pub mod Text
pub mod Trimmed
pub mod ExecutionStatus
pub mod Execution
pub mod QueueStatus
pub mod QueueEntry
pub mod QueueItem
pub mod Job
pub mod Dag
pub mod Schedule
pub mod PackageStatus
pub mod Package
pub mod VenvStatus
pub mod VenvType
pub mod Venv
pub mod Bulk
pub mod Audit
pub mod Statuses
