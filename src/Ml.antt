-- ===== src/Ml.antt =====
-- services/decision_api/src/decision_api/ml.py: the model of the decision service.
pub mod Features
pub mod Model
pub mod Checked
pub mod Artifact
pub mod Trusted
