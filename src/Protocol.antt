-- ===== src/Protocol.antt =====
-- internal/protocol: the text protocol, from a line to a command and back.
pub mod Tokenize
pub mod Command
pub mod Parse
pub mod Response
mod Tests
