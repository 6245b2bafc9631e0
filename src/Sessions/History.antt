-- ===== src/Sessions/History.antt =====
-- The history of a session, read backwards in pages: src/sessions/history.ts.
pub mod Cursor
pub mod Page
pub mod Traversal
pub mod Bound
pub mod Texts
pub mod ToolCalls
pub mod Claude
pub mod Codex
pub mod Entries
pub mod Capped
pub mod Matching
pub mod Truncation
