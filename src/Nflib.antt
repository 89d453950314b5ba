-- ===== src/Nflib.antt =====
-- onvm_mgr/src/nflib: constants, structures and helpers that the manager shares with its NFs.
pub mod Constants
pub mod Structs
pub mod Macros
