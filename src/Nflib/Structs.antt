-- ===== src/Nflib/Structs.antt =====
-- onvm_mgr/src/nflib/structs.rs: the data that the manager keeps.
pub mod Packets
pub mod Ports
pub mod Nf
