-- ===== src/Tests/Threads.antt =====
-- The main thread at concrete inputs.
use rust_onvm_v.Base.{ℕ, ◌+◌, ◌≡◌, ◌≢◌, some, ok, pos, negsuc, final}
use rust_onvm_v.Mgr.System.{System, own}
use rust_onvm_v.Mgr.Nf.Dpdk.{NfDpdk}
use rust_onvm_v.Main.{Timer, initial, main_loop, master_thread_main}
use rust_onvm_v.Main.Forever.{master_thread_main-ne-ok}
use rust_onvm_v.Main.Frame.{master_thread_main-own}
use rust_onvm_v.Tests.Worlds.{one_running}

-- A world that is a clock: each reading adds a tick, ten ticks are a second, and all rings are empty.
abbrev clock_dpdk : NfDpdk ℕ
clock_dpdk = record {
  ring_count = λ r w. 0;
  ring_dequeue_bulk = λ r n w. (0, w);
  ring_dequeue_burst = λ r n w. (0, w);
  ring_dequeue = λ r w. ((negsuc 1, 0), w);
  ring_enqueue = λ r m w. (pos 0, w);
  mempool_lookup = λ name w. some 7;
  mempool_get = λ pool w. (pos 0, w);
  mempool_put = λ pool p w. w;
  pktmbuf_free = λ p w. w;
  free_tag = λ t w. w;
  box_new = λ m w. (4000, w);
  box_drop = λ p w. w;
}

abbrev clock : Timer ℕ
clock = record { tsc_cycles = λ w. (w, w + 1); timer_hz = λ w. 10 }

-- The manager at reading 100 of the clock.
abbrev at_100 : System ℕ
at_100 = record {
  global = one_running.global;
  nf_mem = one_running.nf_mem;
  core_mem = one_running.core_mem;
  world = 100;
}

master_thread_main-ne-ok_example :
    (main_loop clock_dpdk clock 50 3000 initial 95 at_100 ≢ ok tt at_100)
    × (master_thread_main clock_dpdk clock 50 3000 at_100 ≢ ok tt at_100)
master_thread_main-ne-ok_example =
    master_thread_main-ne-ok clock_dpdk clock 50 3000 95 at_100 at_100

master_thread_main-own_example :
    own (final (master_thread_main clock_dpdk clock 50 3000 at_100)) ≡ own at_100
master_thread_main-own_example = master_thread_main-own clock_dpdk clock 50 3000 at_100
