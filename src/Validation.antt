-- ===== src/Validation.antt =====
-- services/decision_api/src/decision_api/validation.py: the strict checks of a decision request.
pub mod Fields
pub mod Request
pub mod Bounds
pub mod Shape
pub mod Contract
