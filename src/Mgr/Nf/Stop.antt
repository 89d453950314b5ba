-- ===== src/Mgr/Nf/Stop.antt =====
-- The end of an NF: `onvm_nf_stop` of onvm_mgr/src/mgr/net_funcs.rs, in the order of its calls.
pub mod Drain
pub mod Steps
pub mod CleanRings
pub mod Frame
pub mod Result
pub mod Count
pub mod Counters
pub mod Accounts
use rust_onvm_v.Base.{
  ℕ, zero, suc, ◌+◌, ◌%◌, List, [], ◌∷◌, Option, none, some, ℤ, pos, eq_ℤ, Cmd, ok, err, exit,
  fault, out_of_fuel, ◌>>=◌, ◌>>◌, fail, skip, get, modify, deref, index_at, checked_pred, ◌==◌,
  ◌||◌, ◌&&◌, not, if◌then◌else◌, set, Bool,
}
use rust_onvm_v.Nflib.Constants.{
  nf_starting, nf_running, nf_paused, nf_stopped, packet_read_size, nf_mempool_name,
  nf_msg_pool_name,
}
use rust_onvm_v.Nflib.Structs.Packets.{Ptr, Mbuf}
use rust_onvm_v.Nflib.Structs.Nf.{Ring, OnvmNf}
use rust_onvm_v.Mgr.Global.{Pool}
use rust_onvm_v.Mgr.System.{
  System, load_nf, store_nf, load_core, store_core, nf_at, core_at, effect, call,
}
use rust_onvm_v.Mgr.Nf.Dpdk.{NfDpdk}
use rust_onvm_v.Mgr.Nf.Start.{NfError, not_running, no_info_pool}

-- The NF counts as one that was started.
unfoldable pub was_started : ℕ → Bool
was_started status = status == nf_running || status == nf_paused

unfoldable pub is_stoppable : ℕ → Bool
is_stoppable status = status == nf_starting || status == nf_running || status == nf_paused

-- The vector that the packets are to be read into. It has room, but its length is 0, and nothing
-- sets another: DPDK is handed its memory.
abbrev pub pkts : List Mbuf
pkts = []

module _ {W : Type 0} (d : NfDpdk W) where
  abbrev pub Step : Type 0 → Type 0
  Step = Cmd NfError (System W)

  -- `for i in 0..n { _rte_pktmbuf_free(pkts[i]) }`: `n` rounds are left, the next is round `i`.
  unfoldable pub free_pkts : ℕ → ℕ → Step (Unit {0})
  free_pkts zero i = skip
  free_pkts (suc n) i = do p ← index_at pkts i; effect (d.pktmbuf_free p); free_pkts n (suc i)

  -- `while nb_pkts > 0`, with fuel.
  unfoldable pub drain_loop : ℕ → Ring → ℕ → Step (Unit {0})
  unfolding free_pkts
  drain_loop fuel ring zero = skip
  drain_loop zero ring (suc n) = out_of_fuel
  drain_loop (suc fuel) ring (suc n) = do
    free_pkts (suc n) 0
    nb_pkts ← call (d.ring_dequeue_burst ring packet_read_size)
    drain_loop fuel ring nb_pkts

  -- A ring's arm: the burst before the loop, the loop, and the exit where there is no ring.
  unfoldable pub drain_ring : ℕ → Option Ring → Step (Unit {0})
  unfolding drain_loop
  drain_ring fuel none = exit
  drain_ring fuel (some ring) = do
    nb_pkts ← call (d.ring_dequeue_burst ring packet_read_size)
    drain_loop fuel ring nb_pkts

  -- `while _rte_ring_dequeue(msg_q, &mut m) == 0`, with fuel.
  unfoldable pub drain_msgs : ℕ → Pool → Ring → Step (Unit {0})
  drain_msgs zero pool msg_q = out_of_fuel
  drain_msgs (suc fuel) pool msg_q = do
    (code, m) ← call (d.ring_dequeue msg_q)
    (if eq_ℤ code (pos 0)
        then effect (d.mempool_put pool m) >> drain_msgs fuel pool msg_q
        else skip)

  -- The arm for the message ring, and the exit where there is none.
  unfoldable pub drain_msg_ring : ℕ → Pool → Option Ring → Step (Unit {0})
  unfolding drain_msgs
  drain_msg_ring fuel pool none = exit
  drain_msg_ring fuel pool (some msg_q) = drain_msgs fuel pool msg_q

  -- Both writes of the new status: through the argument, and through the manager's slot.
  unfoldable pub mark_stopped : Ptr → Step (Unit {0})
  mark_stopped stop = do
    a ← load_nf stop
    store_nf stop (record a { status = nf_stopped })
    b ← load_nf stop
    p ← nf_at b.instance_id
    c ← load_nf p
    store_nf p (record c { status = nf_stopped })

  -- The parent's counter, an `i16` kept as its bit pattern, is copied out, and it is the copy that
  -- is decremented.
  unfoldable pub tell_parent : ℕ → Step ℕ
  tell_parent nf_id = do
    p ← nf_at nf_id
    nf ← load_nf p
    let parent = nf.thread_info.parent
    q ← nf_at parent
    parent_nf ← load_nf q
    let children_cnt = parent_nf.thread_info.children_count
    (if not (parent == 0) then ok ((children_cnt + 65535) % 65536) else ok children_cnt)

  -- The NF leaves its core.
  unfoldable pub leave_core : Ptr → Step (Unit {0})
  leave_core stop = do
    nf ← load_nf stop
    p ← core_at nf.thread_info.core
    c ← load_core p
    count ← checked_pred c.nf_count
    store_core p (record c { nf_count = count })
    c' ← load_core p
    store_core p (record c' { is_dedicated_core = 0 })

  -- The rings are emptied: packets, packets, messages.
  unfoldable pub clean_rings : ℕ → ℕ → Step (Unit {0})
  unfolding drain_ring drain_msg_ring
  clean_rings fuel nf_id = do
    p ← nf_at nf_id
    nf ← load_nf p
    drain_ring fuel nf.rx_q
    p ← nf_at nf_id
    nf ← load_nf p
    drain_ring fuel nf.tx_q
    s ← get
    pool ← deref (d.mempool_lookup nf_msg_pool_name s.world)
    modify (λ s. record s { global = record (s.global) { nf_msg_pool = some pool } })
    p ← nf_at nf_id
    nf ← load_nf p
    drain_msg_ring fuel pool nf.msg_q

  -- The NF's structure goes back to its pool.
  unfoldable pub free_info : Ptr → Step (Unit {0})
  free_info stop = do
    s ← get
    elim (d.mempool_lookup nf_mempool_name s.world) [
      | none ↦ fail no_info_pool
      | some nf_info_mp ↦ effect (d.mempool_put nf_info_mp stop)
    ]

  -- `*global_state.num_nfs.borrow_mut() -= 1` and the count of the service.
  unfoldable pub uncount : ℕ → Step (Unit {0})
  uncount service_id = do
    s ← get
    n ← checked_pred s.global.num_nfs
    modify (λ s. record s { global = record (s.global) { num_nfs = n } })
    s ← get
    k ← index_at s.global.nf_per_service_count service_id
    k ← checked_pred k
    let counts = set s.global.nf_per_service_count service_id k
    modify (λ s. record s { global = record (s.global) { nf_per_service_count = counts } })

  -- What follows the test of the status.
  unfoldable pub stop_active : ℕ → Ptr → OnvmNf → Step (Unit {0})
  unfolding mark_stopped tell_parent leave_core clean_rings free_info uncount was_started
  stop_active fuel stop nf = do
    mark_stopped stop
    tell_parent nf.instance_id
    leave_core stop
    clean_rings fuel nf.instance_id
    free_info stop
    (if not (was_started nf.status) then skip else uncount nf.service_id)

  -- Only the fields of `nf` that the source copies out before its writes are read from it.
  unfoldable pub onvm_nf_stop : ℕ → Ptr → Step (Unit {0})
  unfolding stop_active is_stoppable
  onvm_nf_stop fuel stop = do
    nf ← load_nf stop
    effect (d.free_tag nf.tag)
    (if not (is_stoppable nf.status) then fail not_running else stop_active fuel stop nf)
