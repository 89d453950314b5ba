-- ===== src/Mgr/Init/Port.antt =====
-- `init_port` of onvm_mgr/src/mgr/init.rs. What it prints is left out.
pub mod Laws
pub mod Queues
use Prim.Native.Nat.{bit_and, bit_or}
use rust_onvm_v.Base.{
  ℕ, zero, suc, ◌+◌, ◌-◌, ◌%◌, ◌^◌, Option, some, ℤ, pos, eq_ℤ, is_negative, Cmd, ok, panic,
  overflow, explicit, index_out_of_bounds, fail, skip, get, modify, deref, ◌>>=◌, ◌>>◌, ltb, ◌==◌,
  not, if◌then◌else◌, length, set,
}
use rust_onvm_v.Nflib.Structs.Ports.{PortInfo}
use rust_onvm_v.Mgr.Global.{GlobalNfState, EthConf}
use rust_onvm_v.Mgr.System.{System, call}
use rust_onvm_v.Mgr.Init.Dpdk.{
  InitDpdk, DevInfo, QueueArgs, neg_eio, neg_enomem, neg_enodev, neg_einval, neg_enotsup,
}

-- The messages of `exit_on_failure` in init.rs.
pub data InitError : Type 0 where
  info_unsupported bad_port configure_failed device_removed bad_pool no_rx_memory : InitError
  no_tx_memory promiscuous_unsupported bad_promiscuous_port start_failed : InitError
  link_unsupported bad_link_port bad_arguments : InitError

abbrev pub onvm_num_rx_threads : ℕ
onvm_num_rx_threads = 1

abbrev pub onvm_num_mgr_aux_threads : ℕ
onvm_num_mgr_aux_threads = 1

abbrev pub rte_mp_rx_desc_default : ℕ
rte_mp_rx_desc_default = 512

abbrev pub rte_mp_tx_desc_default : ℕ
rte_mp_tx_desc_default = 512

-- `DEV_TX_OFFLOAD_MBUF_FAST_FREE`.
abbrev pub mbuf_fast_free : ℕ
mbuf_fast_free = 65536

-- The configuration that the port gets: fast free where the device can, and no RSS function that
-- it cannot. The casts to `i64` and back keep every bit.
unfoldable pub local_conf : EthConf → DevInfo → EthConf
local_conf conf info = record conf {
  tx_offloads =
      if not (bit_and info.tx_offload_capa mbuf_fast_free == 0)
      then bit_or conf.tx_offloads mbuf_fast_free
      else conf.tx_offloads;
  rss_hf = bit_and conf.rss_hf info.flow_type_rss_offloads;
}

abbrev pub queue_args : ℕ → ℕ → ℕ → ℕ → QueueArgs
queue_args port q size offloads = record {
  port = port;
  queue = q;
  ring_size = size;
  offloads = offloads;
}

module _ {W : Type 0} (d : InitDpdk W) where
  abbrev pub Init : Type 0 → Type 0
  Init = Cmd InitError (System W)

  -- `rte_lcore_count() - rx_rings - ONVM_NUM_MGR_AUX_THREADS`, with overflow checks.
  unfoldable pub tx_ring_count : Init ℕ
  tx_ring_count s =
      if ltb (d.lcore_count s.world) (onvm_num_rx_threads + onvm_num_mgr_aux_threads)
      then panic overflow s
      else ok (d.lcore_count s.world - onvm_num_rx_threads - onvm_num_mgr_aux_threads) s

  unfoldable pub get_info : ℕ → Init DevInfo
  get_info port = do
    (check, info) ← call (d.dev_info_get port)
    (if eq_ℤ check neg_enotsup
        then fail info_unsupported
        else if eq_ℤ check neg_enodev
        then fail bad_port
        else ok info)

  unfoldable pub configure : ℕ → ℕ → EthConf → Init (Unit {0})
  configure port tx_rings conf = do
    retval ← call (d.dev_configure port onvm_num_rx_threads (tx_rings % 2 ^ 16) conf)
    (if eq_ℤ retval (pos 0) then skip else fail configure_failed)

  unfoldable pub adjust : ℕ → Init (ℕ × ℕ)
  adjust port = do
    (retval, rx_size, tx_size) ←
        call (d.adjust_nb_rx_tx_desc port rte_mp_rx_desc_default rte_mp_tx_desc_default)
    (if is_negative retval then panic explicit else ok (rx_size, tx_size))

  unfoldable pub rx_queue : QueueArgs → Init (Unit {0})
  rx_queue args = do
    retval ← call (d.rx_queue_setup args)
    (if eq_ℤ retval neg_eio
        then fail device_removed
        else if eq_ℤ retval neg_einval
        then fail bad_pool
        else if eq_ℤ retval neg_enomem
        then fail no_rx_memory
        else skip)

  unfoldable pub tx_queue : QueueArgs → Init (Unit {0})
  tx_queue args = do
    retval ← call (d.tx_queue_setup args)
    (if eq_ℤ retval neg_enomem then fail no_tx_memory else skip)

  -- `for q in 0..rx_rings`, for either kind of queue: `n` rounds are left, the next is round `q`.
  unfoldable pub each_queue : (ℕ → Init (Unit {0})) → ℕ → ℕ → Init (Unit {0})
  each_queue setup zero q = skip
  each_queue setup (suc n) q = setup q >> each_queue setup n (suc q)

  unfoldable pub promiscuous : ℕ → Init (Unit {0})
  promiscuous port = do
    retval ← call (d.promiscuous_enable port)
    (if eq_ℤ retval neg_enotsup
        then fail promiscuous_unsupported
        else if eq_ℤ retval neg_enodev
        then fail bad_promiscuous_port
        else skip)

  unfoldable pub start : ℕ → Init (Unit {0})
  start port = do
    retval ← call (d.dev_start port)
    (if is_negative retval then fail start_failed else skip)

  -- `ports.init[port_num] = 1`.
  unfoldable pub mark_init : ℕ → Init (Unit {0})
  mark_init port = do
    s ← get
    ports ← deref s.global.ports
    (if ltb port (length ports.init)
        then modify (λ s. record s {
          global = record (s.global) {
            ports = some (record ports { init = set ports.init port 1 });
          };
        })
        else panic index_out_of_bounds)

  -- The calls on the device, up to its start, under the configuration of the global state.
  unfoldable pub bring_up : ℕ → EthConf → Init (Unit {0})
  unfolding tx_ring_count get_info configure adjust rx_queue tx_queue each_queue promiscuous start
      local_conf
  bring_up port port_conf = do
    tx_rings ← tx_ring_count
    info ← get_info port
    let conf = local_conf port_conf info
    configure port tx_rings conf
    (rx_size, tx_size) ← adjust port
    each_queue (λ q. rx_queue (queue_args port q rx_size conf.rx_offloads)) onvm_num_rx_threads 0
    each_queue (λ q. tx_queue (queue_args port q tx_size port_conf.tx_offloads)) onvm_num_rx_threads
        0
    promiscuous port
    start port

  unfoldable pub init_port : ℕ → Init (Unit {0})
  unfolding bring_up mark_init
  init_port port s = (bring_up port s.global.port_conf >> mark_init port) s
