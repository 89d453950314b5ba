-- ===== src/Nflib/Structs/Nf.antt =====
-- NFs, their messages and service chains of onvm_mgr/src/nflib/structs.rs. A ring or a function is
-- known by its address; an `rte_atomic16_t` is its counter; a tag is the list of its bytes.
use rust_onvm_v.Base.{ℕ, List, Option, replicate}
use rust_onvm_v.Nflib.Constants.{onvm_max_chain_length}
use rust_onvm_v.Nflib.Structs.Packets.{Ptr, QueueMgr}

abbrev pub Ring : Type 0
Ring = Ptr

pub record OnvmFunctionTable : Type 0 where
  pub setup : Ptr
  pub nf_msg_handler_fn : Ptr
  pub nf_user_actions_fn : Ptr
  pub nf_pkt_handler_fn : Ptr

pub record Flags : Type 0 where
  pub init_options : ℕ
  pub time_to_live : ℕ
  pub pkt_limit : ℕ

pub record ThreadInfo : Type 0 where
  pub core : ℕ
  pub parent : ℕ
  pub children_count : ℕ

pub record SharedCore : Type 0 where
  pub sleep_state : ℕ

pub record OnvmNf : Type 0 where
  pub rx_q : Option Ring
  pub tx_q : Option Ring
  pub msg_q : Option Ring
  pub nf_tx_mgr : QueueMgr
  pub instance_id : ℕ
  pub service_id : ℕ
  pub status : ℕ
  pub tag : List ℕ
  pub thread_info : ThreadInfo
  pub flags : Flags
  pub function_table : OnvmFunctionTable
  pub shared_core : SharedCore

pub record OnvmNfInitCfg : Type 0 where
  pub instance_id : ℕ
  pub service_id : ℕ
  pub core : ℕ
  pub init_options : ℕ
  pub status : ℕ
  pub tag : Option (List ℕ)
  pub time_to_live : ℕ
  pub pkt_limit : ℕ

pub data OnvmNfMsg : Type 0 where
  nf_starting : OnvmNfInitCfg → OnvmNfMsg
  nf_ready : Ptr → OnvmNfMsg
  nf_stopping : Ptr → OnvmNfMsg

pub record OnvmServiceChainEntry : Type 0 where
  pub destination : ℕ
  pub action : ℕ

pub record OnvmServiceChain : Type 0 where
  pub sc : List OnvmServiceChainEntry
  pub chain_length : ℕ
  pub ref_cnt : ℕ

-- `Default` of the chain.
abbrev pub default_service_chain : OnvmServiceChain
default_service_chain = record {
  sc = replicate onvm_max_chain_length (record { destination = 0; action = 0 });
  chain_length = 0;
  ref_cnt = 0;
}
