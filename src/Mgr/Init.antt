-- ===== src/Mgr/Init.antt =====
-- The start of the manager, onvm_mgr/src/mgr/init.rs.
pub mod Dpdk
pub mod Port
pub mod Links
pub mod Pools
pub mod Zones
pub mod Startup
