-- ===== src/Main.antt =====
-- The manager's main thread: `master_thread_main` of onvm_mgr/src/lib.rs. Logging, printing and
-- sleeping are left out; the clock is a parameter.
pub mod Forever
pub mod Frame
pub mod Run
use rust_onvm_v.Base.{
  ℕ, zero, suc, ◌+◌, ◌-◌, ◌*◌, ◌/◌, ◌%◌, ◌^◌, List, Cmd, ok, panic, out_of_fuel, overflow,
  division_by_zero, ◌>>=◌, ◌>>◌, skip, get, deref, index_at, ltb, leb, ◌==◌, ◌||◌, not,
  if◌then◌else◌, Bool, true, false,
}
use rust_onvm_v.Nflib.Constants.{max_nfs, nf_running, time_ttl_multiplier, pkt_ttl_multiplier}
use rust_onvm_v.Nflib.Structs.Packets.{Ptr}
use rust_onvm_v.Nflib.Structs.Ports.{PortInfo}
use rust_onvm_v.Nflib.Structs.Nf.{nf_stopping}
use rust_onvm_v.Mgr.System.{System, load_nf, nf_at, call}
use rust_onvm_v.Mgr.Nf.Dpdk.{NfDpdk}
use rust_onvm_v.Mgr.Nf.Start.{NfError}
use rust_onvm_v.Mgr.Nf.Stop.{Step}
use rust_onvm_v.Mgr.Nf.Messages.{onvm_nf_check_status, onvm_nf_send_msg}

abbrev pub max_shutdown_iters : ℕ
max_shutdown_iters = 10

pub record MgrState : Type 0 where
  pub global_stats_sleep_time : ℕ
  pub global_verbosity_level : ℕ
  pub global_pkt_limit : ℕ
  pub global_time_to_live : ℕ

-- `Default`, with the sleep time that the thread sets.
abbrev pub initial : MgrState
initial = record {
  global_stats_sleep_time = 1;
  global_verbosity_level = 0;
  global_pkt_limit = 0;
  global_time_to_live = 0;
}

-- `_rte_get_tsc_cycles` and `_rte_get_timer_hz`.
pub record Timer (W : Type 0) : Type 0 where
  pub tsc_cycles : W → ℕ × W
  pub timer_hz : W → ℕ

module _ {W : Type 0} (d : NfDpdk W) where
  -- `total_rx_pkts += … as u32` over the ports: `n` are left, the next is the `i`th.
  unfoldable pub total_rx : PortInfo → ℕ → ℕ → ℕ → Step d ℕ
  total_rx ports zero i total = ok total
  total_rx ports (suc n) i total = do
    id ← index_at ports.id i
    rx ← index_at ports.rx_stats.rx id
    (if ltb (total + rx % 2 ^ 32) (2 ^ 32)
        then total_rx ports n (suc i) (total + rx % 2 ^ 32)
        else panic overflow)

  -- The test of the packet limit.
  unfoldable pub limit_reached : MgrState → Step d Bool
  unfolding total_rx
  limit_reached st =
      if ltb 0 st.global_pkt_limit
      then (do
        s ← get
        ports ← deref s.global.ports
        total ← total_rx ports ports.num_ports 0 0
        ok (leb (st.global_pkt_limit * pkt_ttl_multiplier) total))
      else ok false

  module _ (k : Timer W) where
    -- A reading of the cycles, which is a `u64`.
    unfoldable pub cycles : Step d ℕ
    cycles = do c ← call k.tsc_cycles; ok (c % 2 ^ 64)

    -- The test of the time to live. `cur - start_time` is checked; the division is made only where
    -- the time to live is not 0.
    unfoldable pub ttl_exceeded : MgrState → ℕ → Step d Bool
    unfolding cycles
    ttl_exceeded st start_time = do
      cur ← cycles
      (if ltb cur start_time then panic overflow else do
        s ← get
        let t = (cur - start_time) * time_ttl_multiplier
        let t1 = k.timer_hz s.world
        (if ltb 0 st.global_time_to_live
            then if t1 == 0
              then panic division_by_zero
              else ok (leb st.global_time_to_live (t / t1))
            else ok false))

    -- `while main_keep_running > 0`, with fuel.
    unfoldable pub main_loop : ℕ → Ptr → MgrState → ℕ → Step d (Unit {0})
    unfolding ttl_exceeded limit_reached
    main_loop zero vec st start_time = out_of_fuel
    main_loop (suc fuel) vec st start_time = do
      onvm_nf_check_status d fuel vec
      expired ← ttl_exceeded st start_time
      reached ← limit_reached st
      (if expired || reached then skip else main_loop fuel vec st start_time)

  -- A round of the loop below: an NF that is running is passed over, any other is sent its stop.
  unfoldable pub notify_one : ℕ → Step d (Unit {0})
  notify_one i = do
    p ← nf_at i
    nf ← load_nf p
    (if nf.status == nf_running then skip else onvm_nf_send_msg d i (nf_stopping p) >> skip)

  -- `for i in 0..MAX_NFS`: `n` rounds are left, the next is round `i`.
  unfoldable pub notify_stop : ℕ → ℕ → Step d (Unit {0})
  unfolding notify_one
  notify_stop zero i = skip
  notify_stop (suc n) i = notify_one i >> notify_stop n (suc i)

  unfoldable pub wait_exits : ℕ → ℕ → Ptr → Step d (Unit {0})
  wait_exits zero fuel vec = skip
  wait_exits (suc n) fuel vec = do onvm_nf_check_status d fuel vec; wait_exits n fuel vec

  -- What follows the main loop.
  unfoldable pub shutdown : ℕ → Ptr → Step d (Unit {0})
  unfolding notify_stop wait_exits
  shutdown fuel vec = do notify_stop max_nfs 0; wait_exits max_shutdown_iters fuel vec

  unfoldable pub master_thread_main : Timer W → ℕ → Ptr → Step d (Unit {0})
  unfolding cycles main_loop shutdown
  master_thread_main k fuel vec = do
    start_time ← cycles k
    main_loop k fuel vec initial start_time
    shutdown fuel vec
