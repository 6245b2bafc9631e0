-- ===== src/Conn.antt =====
-- The connection to the relay: src/conn.
pub mod Outbound
pub mod Client
pub mod Routing
pub mod Buffer
pub mod Phase
