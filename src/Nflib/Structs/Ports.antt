-- ===== src/Nflib/Structs/Ports.antt =====
-- Ports, cores and the configuration of onvm_mgr/src/nflib/structs.rs. Arrays are lists; those of
-- `RTE_MAX_ETHPORTS` entries hold 32.
use rust_onvm_v.Base.{ℕ, Bool, List, replicate}
use rust_onvm_v.Nflib.Constants.{rte_max_ethports}

pub record EtherAddr : Type 0 where
  pub addr_bytes : List ℕ

unfoldable pub new : List ℕ → EtherAddr
new bytes = record { addr_bytes = bytes }

-- The receiver plays no part.
unfoldable pub from_rte_ether_addr : EtherAddr → EtherAddr → EtherAddr
unfolding new
from_rte_ether_addr self addr = new addr.addr_bytes

unfoldable pub get_mac : EtherAddr → List ℕ
get_mac self = self.addr_bytes

pub record RxStats : Type 0 where
  pub rx : List ℕ

pub record TxStats : Type 0 where
  pub tx : List ℕ
  pub tx_drop : List ℕ

pub record PortInfo : Type 0 where
  pub num_ports : ℕ
  pub id : List ℕ
  pub init : List ℕ
  pub mac : List EtherAddr
  pub rx_stats : RxStats
  pub tx_stats : TxStats

pub record Flag : Type 0 where
  pub onvm_nf_share_cores : ℕ

pub record OnvmConfiguration : Type 0 where
  pub flags : Flag

unfoldable pub set_flag : OnvmConfiguration → ℕ → OnvmConfiguration
set_flag c share = record c { flags = record { onvm_nf_share_cores = share } }

pub record CoreStatus : Type 0 where
  pub enabled : Bool
  pub is_dedicated_core : ℕ
  pub nf_count : ℕ

-- What `Default` makes of `PortInfo`: zeros in every array.
abbrev pub default_ports : PortInfo
default_ports = record {
  num_ports = 0;
  id = replicate rte_max_ethports 0;
  init = replicate rte_max_ethports 0;
  mac = replicate rte_max_ethports (record { addr_bytes = replicate 6 0 });
  rx_stats = record { rx = replicate rte_max_ethports 0 };
  tx_stats = record { tx = replicate rte_max_ethports 0; tx_drop = replicate rte_max_ethports 0 };
}
