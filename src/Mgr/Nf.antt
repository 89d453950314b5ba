-- ===== src/Mgr/Nf.antt =====
-- The life of an NF, onvm_mgr/src/mgr/net_funcs.rs.
pub mod Dpdk
pub mod Start
pub mod Stop
pub mod Messages
