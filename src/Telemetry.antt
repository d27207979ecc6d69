-- ===== src/Telemetry.antt =====
-- Trade events: services/decision_api/src/decision_api/event_validation.py and telemetry_handler.py.
pub mod Fields
pub mod Event
