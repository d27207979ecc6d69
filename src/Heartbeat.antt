-- ===== src/Heartbeat.antt =====
-- Heartbeats: services/decision_api/src/decision_api/heartbeat_validation.py and heartbeat_handler.py.
pub mod Validation
