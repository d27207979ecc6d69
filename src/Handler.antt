-- ===== src/Handler.antt =====
-- The three entry points of the API: handler.py, telemetry_handler.py, heartbeat_handler.py of
-- services/decision_api/src/decision_api, and the settings and secrets they read.
pub mod Secrets
pub mod ValidSecrets
pub mod Gateway
pub mod Trade
pub mod Answers
pub mod Reports
pub mod Signed
pub mod KeptReports
pub mod Clients
