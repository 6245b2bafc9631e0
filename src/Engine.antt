-- ===== src/Engine.antt =====
-- The engines of src/engine: lines of their output (Lines), the events these become (Normalize), the
-- bridge for approvals (Approval) and the run of a Claude process (Claude).
pub mod Lines
pub mod EventKind
pub mod Normalize
pub mod Codex
pub mod Approval
pub mod Permission
pub mod Relayed
pub mod Claude
