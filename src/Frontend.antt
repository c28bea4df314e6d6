-- ===== src/Frontend.antt =====
-- frontend/src: what the web interface does besides showing pages.
pub mod Alerts
pub mod Signal
