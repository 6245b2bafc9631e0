-- ===== src/Tests.antt =====
-- Concrete runs of the components: the theorems applied to inputs at which their hypotheses hold.
mod Fixtures
mod Store
mod Jobs
mod Protocol
mod Sessions
mod Conn
mod History
mod Daemon
mod Engine
mod Runner
mod Transcripts
mod Claude
