-- ===== src/Tests.antt =====
-- The theorems at concrete inputs.
pub mod Worlds
pub mod Nfs
pub mod Threads
pub mod Sending
pub mod Setup
pub mod Startup
pub mod Options
pub mod Flags
