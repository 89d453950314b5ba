-- ===== src/Mgr/Global.antt =====
-- The global state of onvm_mgr/src/mgr/global.rs. `none` stands for a null pointer, and a ring or a
-- pool is known by a number. `services` holds addresses; locks and cells are left out.
use Prim.Native.Nat.{bit_or}
use rust_onvm_v.Base.{ℕ, Bool, false, List, [], Option, none}
use rust_onvm_v.Nflib.Constants.{rss_symmetric_key, max_services}
use rust_onvm_v.Nflib.Structs.Packets.{Ptr}
use rust_onvm_v.Nflib.Structs.Ports.{PortInfo, OnvmConfiguration}
use rust_onvm_v.Nflib.Structs.Nf.{Ring, OnvmServiceChain, default_service_chain}

abbrev pub Pool : Type 0
Pool = ℕ

-- The fields of `rte_eth_conf` that the manager gives.
pub record EthConf : Type 0 where
  pub rx_mq_mode : ℕ
  pub max_rx_pkt_len : ℕ
  pub split_hdr_size : ℕ
  pub rx_offloads : ℕ
  pub tx_mq_mode : ℕ
  pub tx_offloads : ℕ
  pub rss_key : List ℕ
  pub rss_hf : ℕ

pub record GlobalNfState : Type 0 where
  pub incoming_msg_queue : Option Ring
  pub pktmbuf_pool : Option Pool
  pub nf_msg_pool : Option Pool
  pub nf_init_cfg_pool : Option Pool
  pub services : List Ptr
  pub nf_per_service_count : List ℕ
  pub num_sockets : ℕ
  pub default_chain : OnvmServiceChain
  pub onvm_config : Option OnvmConfiguration
  pub nfs : List Ptr
  pub ports : Option PortInfo
  pub cores : List Ptr
  pub num_services : ℕ
  pub num_nfs : ℕ
  pub default_service : ℕ
  pub default_service_id : ℕ
  pub onvm_nf_share_cores : Bool
  pub port_conf : EthConf

-- Checksum offloads for IPv4, UDP and TCP, and RSS over IP, UDP, TCP and layer 2 payloads, with
-- the numbers of the DPDK bindings.
abbrev pub default_port_conf : EthConf
default_port_conf = record {
  rx_mq_mode = 1;
  max_rx_pkt_len = 1518;
  split_hdr_size = 0;
  rx_offloads = bit_or (bit_or 2 4) 8;
  tx_mq_mode = 0;
  tx_offloads = bit_or (bit_or 2 4) 8;
  rss_key = rss_symmetric_key;
  rss_hf = bit_or (bit_or (bit_or 41868 133152) 66576) 16384;
}

abbrev pub default : GlobalNfState
default = record {
  incoming_msg_queue = none;
  pktmbuf_pool = none;
  nf_msg_pool = none;
  nf_init_cfg_pool = none;
  services = [];
  nf_per_service_count = [];
  num_sockets = 0;
  default_chain = default_service_chain;
  onvm_config = none;
  nfs = [];
  ports = none;
  cores = [];
  num_services = max_services;
  num_nfs = 0;
  default_service = 0;
  default_service_id = 0;
  onvm_nf_share_cores = false;
  port_conf = default_port_conf;
}
