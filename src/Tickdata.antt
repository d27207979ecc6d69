-- ===== src/Tickdata.antt =====
-- python/tickdata/: the preparation of tick data, by its modules.
pub mod Chunks
pub mod Plan
pub mod Model
pub mod Rows
pub mod HeaderRows
pub mod Normalize
pub mod Normalized
pub mod Times
pub mod Store
pub mod Download
pub mod Attempts
pub mod Resume
pub mod Reported
pub mod Stage
pub mod Fresh
pub mod Validate
pub mod Sound
pub mod Convert
