-- ===== src/Server.antt =====
-- internal/server: the command handlers.
pub mod Admin
pub mod Dispatch
pub mod Kv
pub mod Vector
pub mod Words
pub mod Recovery
pub mod Info
pub mod VectorIndex
mod Tests
