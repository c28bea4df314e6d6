-- ===== src/Watch.antt =====
-- scripts/ai-agent: the monitors of drift and of health, the alerts that they send, and the publication
-- of scores.
pub mod Alerts
pub mod Loop
pub mod Drift
pub mod Health
pub mod Publish
mod Tests
