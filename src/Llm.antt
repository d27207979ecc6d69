-- ===== src/Llm.antt =====
-- services/decision_api/src/decision_api/llm.py: the provider, and the reading of a language model's answer.
pub mod Reading
pub mod Contract
pub mod Prompt
pub mod OpenAi
pub mod Timely
