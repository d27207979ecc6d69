-- ===== src/Repository.antt =====
-- services/decision_api/src/decision_api/repository.py: the DynamoDB table behind the API.
pub mod Table
pub mod Dynamo
pub mod Events
pub mod Decisions
pub mod Nonces
pub mod Heartbeats
pub mod TradeEvents
