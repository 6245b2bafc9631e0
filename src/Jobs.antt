-- ===== src/Jobs.antt =====
-- Job orchestration: src/jobs. `Types` and `Registry` are the data, `Manager` the state of JobManager,
-- `Assign`, `Callbacks`, `Inbound` and `Resume` its methods, `Step` one step of any of them; the other
-- children are about these.
pub mod Types
pub mod Registry
pub mod Manager
pub mod Assign
pub mod Callbacks
pub mod Inbound
pub mod Resume
pub mod Step
pub mod Admission
pub mod Fencing
pub mod Leases
pub mod Delivery
pub mod Stranded
pub mod Replay
pub mod Approvals
pub mod Invariant
