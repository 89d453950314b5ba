-- ===== src/Tests/Nfs.antt =====
-- The life of NFs and their messages at concrete inputs.
use rust_onvm_v.Base.{
  ℕ, zero, suc, ◌≡◌, ◌≢◌, refl, arith, [], ◌∷◌, some, ok, err, panic, index_out_of_bounds,
  get_elem?, replicate, true, final,
}
use rust_onvm_v.Nflib.Constants.{nf_starting, nf_running, nf_paused, nf_stopped, nf_id_conflict}
use rust_onvm_v.Nflib.Structs.Packets.{Ptr}
use rust_onvm_v.Nflib.Structs.Ports.{CoreStatus}
use rust_onvm_v.Mgr.System.{System, update}
use rust_onvm_v.Mgr.Nf.Start.{onvm_nf_start, id_conflict}
use rust_onvm_v.Mgr.Nf.Start.Laws.{onvm_nf_start-ne-ok, onvm_nf_start_lem}
use rust_onvm_v.Mgr.Nf.Stop.{onvm_nf_stop, drain_msgs, is_stoppable, was_started}
use rust_onvm_v.Mgr.Nf.Stop.Drain.{drain_msgs-empties}
use rust_onvm_v.Mgr.Nf.Stop.Count.{count}
use rust_onvm_v.Mgr.Nf.Stop.Frame.{nf_table, stop-nf_table}
use rust_onvm_v.Mgr.Nf.Stop.Steps.{stopped}
use rust_onvm_v.Mgr.Nf.Stop.CleanRings.{HasCleanRings}
use rust_onvm_v.Mgr.Nf.Stop.Result.{CanStop, detached, stop_panics}
use rust_onvm_v.Mgr.Nf.Stop.Accounts.{stop-Accounts, stop_starting-Accounts}
use rust_onvm_v.Mgr.Nf.Stop.Counters.{Accounts, serves, on_core}
use rust_onvm_v.Mgr.Nf.Messages.{onvm_nf_check_status}
use rust_onvm_v.Mgr.Nf.Messages.Laws.{check_status_lem}
use rust_onvm_v.Tests.Worlds.{
  Rings, put, rings_dpdk, rings_laws, nf_with, system_with, no_packets, one_running, start_config,
}

-- The NF with any status can be stopped.
abbrev can_stop :
    (status n : ℕ) (w : Rings) → CanStop rings_dpdk 1001 (nf_with status) (system_with status n w)
can_stop status n w = record {
  here = refl;
  slot = refl;
  parent_ptr = 1000;
  parent = nf_with nf_stopped;
  parent_slot = refl;
  parent_here = refl;
  core_ptr = 2000;
  core = record { enabled = true; is_dedicated_core = 1; nf_count = 1 };
  core_slot = refl;
  core_here = refl;
  msg_pool = 7;
  msg_pool_found = λ w. refl;
  info_pool = 7;
  info_pool_found = λ w. refl;
}

-- Two messages wait for the NF.
abbrev two_messages : Rings
two_messages = put no_packets 12 (1 ∷ 2 ∷ [])

abbrev clean : (status : ℕ) → HasCleanRings rings_dpdk rings_laws 4 (nf_with status) two_messages
clean status = record {
  rx = 10;
  tx = 11;
  msg = 12;
  rx_q = refl;
  tx_q = refl;
  msg_q = refl;
  rx_empty = refl;
  tx_empty = refl;
  msgs_few = omega arith;
}

abbrev running : System Rings
running = system_with nf_running 1 two_messages

abbrev starting : System Rings
starting = system_with nf_starting 0 two_messages

services_running :
    (k n : ℕ)
    → get_elem? (1 ∷ []) k ≡ some n
    → n ≡ count (serves k) running.nf_mem running.global.nfs
unfolding was_started
services_running zero n e = ground arith
services_running (suc k) n e = cc

cores_running :
    (i : ℕ) (p : Ptr) (c : CoreStatus)
    → get_elem? (2000 ∷ []) i ≡ some p
    → running.core_mem p ≡ some c
    → c.nf_count ≡ count (on_core i) running.nf_mem running.global.nfs
unfolding is_stoppable
cores_running zero p c e h = ground arith
cores_running (suc i) p c e h = cc

running-Accounts : Accounts running
unfolding was_started
running-Accounts = record {
  nfs_distinct = (refl, (refl, tt));
  cores_distinct = (refl, tt);
  total = refl;
  services = services_running;
  cores = cores_running;
}

services_starting :
    (k n : ℕ)
    → get_elem? (0 ∷ []) k ≡ some n
    → n ≡ count (serves k) starting.nf_mem starting.global.nfs
unfolding was_started
services_starting zero n e = ground arith
services_starting (suc k) n e = cc

cores_starting :
    (i : ℕ) (p : Ptr) (c : CoreStatus)
    → get_elem? (2000 ∷ []) i ≡ some p
    → starting.core_mem p ≡ some c
    → c.nf_count ≡ count (on_core i) starting.nf_mem starting.global.nfs
unfolding is_stoppable
cores_starting zero p c e h = ground arith
cores_starting (suc i) p c e h = cc

starting-Accounts : Accounts starting
unfolding was_started
starting-Accounts = record {
  nfs_distinct = (refl, (refl, tt));
  cores_distinct = (refl, tt);
  total = refl;
  services = services_starting;
  cores = cores_starting;
}

stop-Accounts_example :
    (t : System Rings) × (onvm_nf_stop rings_dpdk 4 1001 running ≡ ok tt t)
    × Accounts t
    × (t.nf_mem 1001 ≡ some (stopped (nf_with nf_running)))
unfolding was_started
stop-Accounts_example =
    stop-Accounts rings_dpdk rings_laws 3 1001 (nf_with nf_running) running
      (can_stop nf_running 1 two_messages) running-Accounts 1 (clean nf_running) refl refl

stop_starting-Accounts_example :
    (t : System Rings) × (onvm_nf_stop rings_dpdk 4 1001 starting ≡ ok tt t)
    × Accounts t
    × (t.nf_mem 1001 ≡ some (stopped (nf_with nf_starting)))
stop_starting-Accounts_example =
    stop_starting-Accounts rings_dpdk rings_laws 3 1001 (nf_with nf_starting) starting
      (can_stop nf_starting 0 two_messages) starting-Accounts (clean nf_starting) refl

-- Five packets wait in the rx ring.
abbrev five_packets : Rings
five_packets = put no_packets 10 (1 ∷ 2 ∷ 3 ∷ 4 ∷ 5 ∷ [])

paused_stoppable : is_stoppable nf_paused ≡ true
unfolding is_stoppable
paused_stoppable = refl

stop_panics_example :
    onvm_nf_stop rings_dpdk 4 1001 (system_with nf_paused 1 five_packets)
    ≡ panic index_out_of_bounds
        (record (detached rings_dpdk {nf = nf_with nf_paused} (can_stop nf_paused 1 five_packets)) {
          world = put five_packets 10 [];
        })
stop_panics_example =
    stop_panics rings_dpdk rings_laws 3 1001 (nf_with nf_paused)
      (system_with nf_paused 1 five_packets) (can_stop nf_paused 1 five_packets) 10 refl
      (omega arith) paused_stoppable (omega arith)

onvm_nf_start-ne-ok_example :
    onvm_nf_start one_running 5 (start_config 0)
    ≢ ok tt (record (start_config 0) { instance_id = 2 })
onvm_nf_start-ne-ok_example =
    onvm_nf_start-ne-ok one_running 5 (start_config 0) (record (start_config 0) { instance_id = 2 })

-- All 128 slots lead to the NF at 1001.
abbrev full_table : System Rings
full_table = record one_running {
  global = record (one_running.global) { nfs = replicate 128 1001 };
}

onvm_nf_start_example :
    onvm_nf_start full_table 5 (start_config 0)
    ≡ err id_conflict (record (start_config 0) { status = nf_id_conflict })
onvm_nf_start_example =
    onvm_nf_start_lem full_table 4 (start_config 0) 1001 (nf_with nf_running) 1 refl refl refl refl

check_status_example :
    onvm_nf_check_status rings_dpdk 4 3000 (system_with nf_running 1 (put no_packets 5 (8 ∷ [])))
    ≡ panic index_out_of_bounds (system_with nf_running 1 (put (put no_packets 5 (8 ∷ [])) 5 []))
check_status_example =
    check_status_lem rings_dpdk rings_laws 4 3000 5
      (system_with nf_running 1 (put no_packets 5 (8 ∷ []))) refl

stop-nf_table_example :
    nf_table (final (onvm_nf_stop rings_dpdk 4 1001 (system_with nf_paused 1 five_packets))) ≡ (
      update (system_with nf_paused 1 five_packets).nf_mem 1001 (stopped (nf_with nf_paused)),
      (system_with nf_paused 1 five_packets).global.nfs,
    )
unfolding is_stoppable
stop-nf_table_example =
    stop-nf_table rings_dpdk 4 1001 (nf_with nf_paused) (system_with nf_paused 1 five_packets) refl
      refl

drain_msgs-empties_example :
    (w : Rings) × (drain_msgs rings_dpdk 3 7 12 running ≡ ok tt (record running { world = w }))
    × (w 12 ≡ [])
drain_msgs-empties_example =
    drain_msgs-empties rings_dpdk rings_laws 3 7 12 running (1 ∷ 2 ∷ []) refl (omega arith)
