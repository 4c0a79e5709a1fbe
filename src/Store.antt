-- ===== src/Store.antt =====
-- internal/store: the encrypted store that tools run on.
pub mod Tables
pub mod State
pub mod Quota
pub mod Kv
pub mod Queue
pub mod Cache
pub mod Blob
pub mod Tools
pub mod Cases
pub mod Moves
pub mod Frame
pub mod Ordered
pub mod Limit
pub mod ReadBack
pub mod Files
pub mod Persist
pub mod Open
