-- ===== src/Mgr/Init/Pools.antt =====
-- The pools, the queue and the configuration of onvm_mgr/src/mgr/init.rs. What it prints is left
-- out. The sizes of types are a parameter.
use rust_onvm_v.Base.{ℕ, ◌+◌, ◌*◌, some, Cmd, modify, get, deref, ◌>>=◌, ◌>>◌, if◌then◌else◌}
use rust_onvm_v.Nflib.Constants.{
  pktmbuf_pool_name, nf_mempool_name, nf_msg_pool_name, max_nfs, num_mbufs,
  onvm_nf_share_cores_default,
}
use rust_onvm_v.Nflib.Structs.Ports.{set_flag}
use rust_onvm_v.Mgr.System.{System, call}
use rust_onvm_v.Mgr.Init.Dpdk.{InitDpdk}
use rust_onvm_v.Mgr.Init.Port.{InitError}

-- What `size_of` gives.
pub record Sizes : Type 0 where
  pub mbuf : ℕ
  pub pool_private : ℕ
  pub nf_init_cfg : ℕ
  pub nf : ℕ
  pub port_info : ℕ
  pub core_status : ℕ
  pub configuration : ℕ

-- `size_of::<c_void>()`.
abbrev pub void_size : ℕ
void_size = 1

abbrev pub mbuf_cache_size : ℕ
mbuf_cache_size = 512

abbrev pub rx_mbuf_data_size : ℕ
rx_mbuf_data_size = 2048

-- The overhead holds a `u32` of 4 bytes.
abbrev pub mbuf_size : Sizes → ℕ
mbuf_size z = rx_mbuf_data_size + (z.mbuf + 4)

abbrev pub nf_msg_cache_size : ℕ
nf_msg_cache_size = 8

abbrev pub nf_msg_queue_size : ℕ
nf_msg_queue_size = 128

abbrev pub ring_f_sc_deq : ℕ
ring_f_sc_deq = 2

module _ {W : Type 0} (d : InitDpdk W) (z : Sizes) where
  abbrev Init : Type 0 → Type 0
  Init = Cmd InitError (System W)

  -- The pool is read through the pointer that DPDK returns, which is not tested.
  unfoldable pub init_mbuf_pools : Init (Unit {0})
  init_mbuf_pools = do
    p ←
        call (
          d.mempool_create pktmbuf_pool_name num_mbufs (mbuf_size z) mbuf_cache_size z.pool_private)
    pool ← deref p
    modify (λ s. record s { global = record (s.global) { pktmbuf_pool = some pool } })

  -- The elements have the size of a configuration.
  unfoldable pub init_nf_msg_pool : Init (Unit {0})
  init_nf_msg_pool = do
    p ← call (
        d.mempool_create nf_msg_pool_name (max_nfs * nf_msg_queue_size) z.nf_init_cfg
          nf_msg_cache_size 0)
    pool ← deref p
    modify (λ s. record s { global = record (s.global) { nf_msg_pool = some pool } })

  unfoldable pub init_nf_init_cfg_pool : Init (Unit {0})
  init_nf_init_cfg_pool = do
    p ← call (d.mempool_create nf_mempool_name max_nfs z.nf_init_cfg 0 0)
    pool ← deref p
    modify (λ s. record s { global = record (s.global) { nf_init_cfg_pool = some pool } })

  unfoldable pub init_info_queue : Init (Unit {0})
  init_info_queue = do
    r ← call (d.ring_create max_nfs ring_f_sc_deq)
    ring ← deref r
    modify (λ s. record s { global = record (s.global) { incoming_msg_queue = some ring } })

  -- The argument shares its target with the global state.
  unfoldable pub set_default_config : Init (Unit {0})
  set_default_config = do
    s ← get
    c ← deref s.global.onvm_config
    let c = if onvm_nf_share_cores_default then set_flag c 0 else set_flag c 1
    modify (λ s. record s { global = record (s.global) { onvm_config = some c } })

  -- The three pools, in the order in which `init` makes them.
  unfoldable pub init_pools : Init (Unit {0})
  unfolding init_mbuf_pools init_nf_init_cfg_pool init_nf_msg_pool
  init_pools = do init_mbuf_pools; init_nf_init_cfg_pool; init_nf_msg_pool
