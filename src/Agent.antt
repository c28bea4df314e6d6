-- ===== src/Agent.antt =====
-- fce-ai-agent/typescript/src/app: scoring leads, classifying them, and watching positions.
pub mod Series
pub mod Scoring
pub mod Classify
pub mod Drift
pub mod Health
pub mod Synthetic
pub mod Host
pub mod Report
pub mod Handlers
pub mod Server
mod Tests
