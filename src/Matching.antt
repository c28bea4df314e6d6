-- ===== src/Matching.antt =====
-- fce-matching-engine/typescript/src/app: the matching engine.
pub mod Host
pub mod OutcomeLog
pub mod Signal
pub mod Trade
pub mod Swap
pub mod MockVenue
pub mod TopUp
pub mod Match
pub mod Handlers
pub mod Server
mod Tests
