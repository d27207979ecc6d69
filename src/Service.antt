-- ===== src/Service.antt =====
-- services/decision_api/src/decision_api/service.py: the decision of a request. The machine-learning
-- filter comes first, the language model is asked only if it passes, and every answer is stored.
pub mod Providers
pub mod Evaluate
pub mod Decide
pub mod Approval
pub mod Idempotence
pub mod FailSafe
pub mod Release
