-- ===== src/Archive.antt =====
-- The store of source logs in the backend.
pub mod Model
pub mod Receive
pub mod Verify
pub mod Trace
pub mod Stored
pub mod Tied
pub mod Growth
pub mod Retransmit
pub mod Acknowledged
pub mod Examples
pub mod Validate
pub mod Accounted
