-- ===== src/Sessions.antt =====
-- Attached sessions: src/sessions.
pub mod ResumeManager
pub mod Busy
pub mod Terminal
pub mod Backpressure
pub mod Runner
pub mod Adapters
pub mod History
