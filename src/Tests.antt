-- ===== src/Tests.antt =====
-- Runs of the theorems on concrete inputs.
pub mod Session
pub mod Store
pub mod Stream
pub mod Client
pub mod Server
pub mod Format
