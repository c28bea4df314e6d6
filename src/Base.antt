-- ===== src/Base.antt =====
-- fce-matching-engine/typescript/src/base: what every extension server is built on.
pub mod Encoding
pub mod Framework
pub mod Flow
pub mod Server
pub mod Greeting
pub mod Queue
pub mod Base64
pub mod Node
mod Tests
