-- ===== src/Tests/Setup.antt =====
-- Packet buffers, arguments and ports at concrete inputs.
use rust_onvm_v.Base.{
  decimal, none, length, ◌<◌, ◌-◌, ◌%◌, ◌^◌, ◌≤◌, ℕ, zero, suc, ◌≡◌, ◌≢◌, refl, arith, [], ◌∷◌,
  some, ok, err, panic, unwrap_failed, true, pos, replicate, is_running, ◌==◌, if◌then◌else◌,
  negsuc,
}
use rust_onvm_v.Nflib.Structs.Packets.{Ptr, Store, PacketBuf, tx_thread_add_mbuf, does_not_exist}
use rust_onvm_v.Nflib.Structs.Packets.Laws.{add_all, add_all_lem, tx_thread_add_mbuf-err}
use rust_onvm_v.Nflib.Structs.Ports.{default_ports}
use rust_onvm_v.Mgr.System.{System, own}
use rust_onvm_v.Mgr.Args.{portmask_loop, parse_num_services}
use rust_onvm_v.Mgr.Args.Numbers.{parse_num_services-decimal}
use rust_onvm_v.Mgr.Args.Ports.{ones, with_ids, portmask_other}
use rust_onvm_v.Mgr.Init.Dpdk.{InitDpdk}
use rust_onvm_v.Mgr.Init.Port.{init_port, start_failed}
use rust_onvm_v.Mgr.Init.Port.Laws.{marked, init_port_ok, init_port_err}
use rust_onvm_v.Mgr.Init.Port.Queues.{
  Logged, logged, configured, rx_set, tx_set, started, init_port-calls,
}
use rust_onvm_v.Tests.Worlds.{Rings, put, no_packets, one_running}

abbrev empty_buf : PacketBuf
empty_buf = record { buffer = []; count = 0 }

-- One buffer, with a strong and a weak reference, at every address.
abbrev one_buffer : Store
one_buffer p = some (record { strong = 1; weak = 1; value = empty_buf })

tx_thread_add_mbuf_example :
    (s : Store) × (tx_thread_add_mbuf
        (record { first_nf = 0; last_nf = 3; port_tx_bufs = 40 })
        8
        one_buffer
      ≡ err does_not_exist s)
    × ((q : Ptr) → s q ≡ one_buffer q)
tx_thread_add_mbuf_example =
    tx_thread_add_mbuf-err (record { first_nf = 0; last_nf = 3; port_tx_bufs = 40 }) 8 one_buffer
      (record { strong = 1; weak = 1; value = empty_buf }) refl

two_not_ones : (k : ℕ) → 2 ≢ ones k
unfolding ones
two_not_ones zero h = cc
two_not_ones (suc k) h = absurd (omega (arith, h))

-- The mask 2 of the second port.
portmask_other_example :
    is_running
      (portmask_loop 1000 32 (pos 2) 0 (with_ids one_running default_ports (replicate 32 0)))
    ≡ true
portmask_other_example =
    portmask_other 2 1000 32 2 0 default_ports (replicate 32 0) one_running (omega arith)
      (omega arith) (omega arith) two_not_ones

parse_num_services_example :
    parse_num_services (decimal 300) one_running ≡ panic unwrap_failed one_running
parse_num_services_example = parse_num_services-decimal 300 one_running

-- A device on which every call but the start answers 0.
abbrev device : ℕ → InitDpdk Rings
device code = record {
  lcore_count = λ w. 4;
  dev_info_get = λ p w. ((pos 0, record { tx_offload_capa = 0; flow_type_rss_offloads = 0 }), w);
  dev_configure = λ p rx tx c w. (pos 0, w);
  adjust_nb_rx_tx_desc = λ p rx tx w. ((pos 0, rx, tx), w);
  rx_queue_setup = λ a w. (pos 0, w);
  tx_queue_setup = λ a w. (pos 0, w);
  promiscuous_enable = λ p w. (pos 0, w);
  dev_start = λ p w. (if code == 0 then pos 0 else negsuc 0, put w 0 (1 ∷ []));
  link_get_nowait = λ p w. ((pos 0, record { link_status = 1 }), w);
  delay_us_sleep = λ n w. w;
  mempool_create = λ name n e c p w. (some 7, w);
  ring_create = λ n f w. (some 5, w);
  memzone_reserve = λ z n w. (true, w);
  calloc = λ n e w. (4000, w);
  macaddr_get = λ p a w. (a, w);
}

-- The world after the start.
abbrev after_start : Rings
after_start = put no_packets 0 (1 ∷ [])

abbrev port_3_up : System Rings
port_3_up = record one_running {
  global = record (one_running.global) { ports = some (marked default_ports 3) };
  world = after_start;
}

device_up : init_port (device 0) 3 one_running ≡ ok tt port_3_up
unfolding init_port
device_up = refl

-- The same machine with an empty log.
abbrev unlogged : System (Logged Rings)
unlogged = record {
  global = one_running.global;
  nf_mem = one_running.nf_mem;
  core_mem = one_running.core_mem;
  world = (no_packets, []);
}

abbrev port_3_logged : System (Logged Rings)
port_3_logged = record unlogged {
  global = record (one_running.global) { ports = some (marked default_ports 3) };
  world = (after_start, started 3 ∷ tx_set 3 0 ∷ rx_set 3 0 ∷ configured 3 1 2 ∷ []);
}

device-logged : init_port (logged (device 0)) 3 unlogged ≡ ok tt port_3_logged
unfolding init_port
device-logged = refl

init_port-calls_example :
    (2 ≤ 4)
    × (port_3_logged.world.1
        ≡ started 3 ∷ tx_set 3 0 ∷ rx_set 3 0 ∷ configured 3 1 ((4 - 2) % 2 ^ 16) ∷ [])
init_port-calls_example = init_port-calls (device 0) 3 unlogged port_3_logged device-logged

device_down :
    init_port (device 1) 3 one_running
    ≡ err start_failed (record one_running { world = after_start })
unfolding init_port
device_down = refl

init_port_ok_example :
    (3 < length default_ports.init)
    × (own port_3_up ≡ (
      record (one_running.global) { ports = some (marked default_ports 3) },
      one_running.nf_mem,
      one_running.core_mem,
    ))
init_port_ok_example = init_port_ok (device 0) 3 default_ports one_running port_3_up refl device_up

init_port_err_example : own (record one_running { world = after_start }) ≡ own one_running
init_port_err_example =
    init_port_err (device 1) 3 start_failed one_running (record one_running { world = after_start })
      device_down

-- A buffer whose counter has room for one packet more.
add_all_example : add_all (record { buffer = 7 ∷ []; count = 65534 }) (8 ∷ 9 ∷ []) ≡ none
add_all_example = add_all_lem (record { buffer = 7 ∷ []; count = 65534 }) (8 ∷ 9 ∷ []) (omega arith)
