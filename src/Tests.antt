-- ===== src/Tests.antt =====
-- Concrete inputs: the theorems of the library applied where their hypotheses hold.
pub mod World
pub mod Parsing
pub mod Signing
pub mod Deciding
pub mod Storing
pub mod Serving
pub mod Reporting
pub mod Ticking
pub mod Downloading
pub mod Predicting
pub mod Converting
