-- ===== src/Mgr/Init/Dpdk.antt =====
-- The DPDK calls of onvm_mgr/src/mgr/init.rs, which are a parameter, and the error numbers of libc
-- on Linux. A null pointer is `none`.
use rust_onvm_v.Base.{ℕ, Option, ℤ, negsuc, Bool}
use rust_onvm_v.Nflib.Constants.{PoolName}
use rust_onvm_v.Nflib.Structs.Packets.{Ptr}
use rust_onvm_v.Nflib.Structs.Ports.{EtherAddr}
use rust_onvm_v.Nflib.Structs.Nf.{Ring}
use rust_onvm_v.Mgr.Global.{Pool, EthConf}

-- `-EIO`, `-ENOMEM`, `-ENODEV`, `-EINVAL` and `-ENOTSUP`.
abbrev pub neg_eio : ℤ
neg_eio = negsuc 4

abbrev pub neg_enomem : ℤ
neg_enomem = negsuc 11

abbrev pub neg_enodev : ℤ
neg_enodev = negsuc 18

abbrev pub neg_einval : ℤ
neg_einval = negsuc 21

abbrev pub neg_enotsup : ℤ
neg_enotsup = negsuc 94

-- The fields of `rte_eth_dev_info` that are read.
pub record DevInfo : Type 0 where
  pub tx_offload_capa : ℕ
  pub flow_type_rss_offloads : ℕ

-- `rte_eth_link`: its status, where 0 is down.
pub record Link : Type 0 where
  pub link_status : ℕ

pub data ZoneName : Type 0 where
  mz_nf_info mz_port_info mz_cores_status mz_services_info mz_nf_per_service_info mz_onvm_config :
      ZoneName

-- What the configuration of a queue takes: port, queue, ring size and offloads.
pub record QueueArgs : Type 0 where
  pub port : ℕ
  pub queue : ℕ
  pub ring_size : ℕ
  pub offloads : ℕ

pub record InitDpdk (W : Type 0) : Type 0 where
  pub lcore_count : W → ℕ
  pub dev_info_get : ℕ → W → (ℤ × DevInfo) × W
  pub dev_configure : (port rx_rings tx_rings : ℕ) → EthConf → W → ℤ × W
  pub adjust_nb_rx_tx_desc : (port rx_size tx_size : ℕ) → W → (ℤ × ℕ × ℕ) × W
  pub rx_queue_setup : QueueArgs → W → ℤ × W
  pub tx_queue_setup : QueueArgs → W → ℤ × W
  pub promiscuous_enable : ℕ → W → ℤ × W
  pub dev_start : ℕ → W → ℤ × W
  pub link_get_nowait : ℕ → W → (ℤ × Link) × W
  pub delay_us_sleep : ℕ → W → W
  pub mempool_create :
      (name : PoolName) (n elt_size cache_size private_size : ℕ) → W → Option Pool × W
  pub ring_create : (count flags : ℕ) → W → Option Ring × W
  pub memzone_reserve : ZoneName → (size : ℕ) → W → Bool × W
  pub calloc : (num size : ℕ) → W → Ptr × W
  pub macaddr_get : ℕ → EtherAddr → W → EtherAddr × W
