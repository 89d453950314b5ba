-- ===== src/Mgr.antt =====
-- onvm_mgr/src/mgr: the manager's state and operations.
pub mod Global
pub mod System
pub mod Frame
pub mod Nf
pub mod Args
pub mod Init
