-- ===== src/Mgr/Nf/Stop/Result.antt =====
-- What `onvm_nf_stop` does to an NF that can be stopped.
use rust_onvm_v.Base.{
  ℕ, suc, ◌-◌, ◌<◌, ◌≡◌, ◌∙◌, ap, arith, some, true, length, get_elem?, ◌==◌, if◌then◌else◌, not,
  bind_ok, bind_panic, deref_ok, skip, fail, panic, index_out_of_bounds, ◌>>◌,
}
use rust_onvm_v.Nflib.Constants.{packet_read_size, nf_mempool_name, nf_msg_pool_name}
use rust_onvm_v.Nflib.Structs.Packets.{Ptr}
use rust_onvm_v.Nflib.Structs.Ports.{CoreStatus}
use rust_onvm_v.Nflib.Structs.Nf.{Ring, OnvmNf}
use rust_onvm_v.Mgr.Global.{Pool}
use rust_onvm_v.Mgr.System.{System, update}
use rust_onvm_v.Mgr.Nf.Dpdk.{NfDpdk, RingLaws, NoFuller}
use rust_onvm_v.Mgr.Nf.Start.{not_running}
use rust_onvm_v.Mgr.Nf.Stop.Steps.{
  stopped, mark_stopped_lem, tell_parent_lem, leave_core_lem, free_info_lem,
}
use rust_onvm_v.Mgr.Nf.Stop.CleanRings.{HasCleanRings, clean_rings_lem, clean_rings_panics}
use rust_onvm_v.Mgr.System.{update_self}
use rust_onvm_v.Mgr.Nf.Stop.{
  Step, onvm_nf_stop, is_stoppable, was_started, clean_rings, free_info, uncount, stop_active,
}

-- An NF that the manager knows by its slot, whose parent and core it knows too. The pools of
-- messages and of NFs can be looked up.
pub record CanStop {W : Type 0} (d : NfDpdk W) (stop : Ptr) (nf : OnvmNf) (s : System W)
    : Type 0 where
  pub here : s.nf_mem stop ≡ some nf
  pub slot : get_elem? s.global.nfs nf.instance_id ≡ some stop
  pub parent_ptr : Ptr
  pub parent : OnvmNf
  pub parent_slot : get_elem? s.global.nfs nf.thread_info.parent ≡ some parent_ptr
  pub parent_here : s.nf_mem parent_ptr ≡ some parent
  pub core_ptr : Ptr
  pub core : CoreStatus
  pub core_slot : get_elem? s.global.cores nf.thread_info.core ≡ some core_ptr
  pub core_here : s.core_mem core_ptr ≡ some core
  pub msg_pool : Pool
  pub msg_pool_found : (w : W) → d.mempool_lookup nf_msg_pool_name w ≡ some msg_pool
  pub info_pool : Pool
  pub info_pool_found : (w : W) → d.mempool_lookup nf_mempool_name w ≡ some info_pool

module _ {W : Type 0} (d : NfDpdk W) where
  -- The state that the calls after the test of the status begin in.
  abbrev pub tag_freed : OnvmNf → System W → System W
  tag_freed nf s = record s { world = d.free_tag nf.tag s.world }

  -- The state in which the rings are cleaned, from `s`.
  abbrev pub detached : {stop : Ptr} {nf : OnvmNf} {s : System W} → CanStop d stop nf s → System W
  detached {stop} {nf} {s} c = record (tag_freed nf s) {
    nf_mem = update s.nf_mem stop (stopped nf);
    core_mem =
        update s.core_mem c.core_ptr
          (record (c.core) { nf_count = c.core.nf_count - 1; is_dedicated_core = 0 });
  }

  -- The state after the calls that every stop makes, with DPDK's world `w`.
  abbrev pub released :
      {stop : Ptr} {nf : OnvmNf} {s : System W} → CanStop d stop nf s → W → System W
  released {s = s} c w = record (detached c) {
    global = record (s.global) { nf_msg_pool = some c.msg_pool };
    world = w;
  }

  abbrev pub after_rings : Ptr → OnvmNf → Step d (Unit {0})
  after_rings stop nf =
      free_info d stop >> (if not (was_started nf.status) then skip else uncount d nf.service_id)

  -- A stop runs up to its rings.
  pub stop-detached :
      (fuel : ℕ) (stop : Ptr) (nf : OnvmNf) (s : System W) (c : CanStop d stop nf s)
      → is_stoppable nf.status ≡ true
      → 0 < c.core.nf_count
      → onvm_nf_stop d fuel stop s
        ≡ (clean_rings d fuel nf.instance_id >> after_rings stop nf) (detached c)
  unfolding onvm_nf_stop stop_active
  stop-detached fuel stop nf s c can busy =
      let s0 : System W = tag_freed nf s in
      let s1 : System W = record s0 { nf_mem = update s.nf_mem stop (stopped nf) } in
      let parent' : OnvmNf = if stop == c.parent_ptr then stopped nf else c.parent in
      let up : s1.nf_mem c.parent_ptr ≡ some parent' = ground (arith, c.parent_here) in
      let (n, told) =
        tell_parent_lem d s1 nf.instance_id stop c.parent_ptr (stopped nf) parent' c.slot
          (update_self s.nf_mem stop (stopped nf)) c.parent_slot up in
      bind_ok _ (deref_ok s c.here)
      ∙ ap (λ b. (if not b then fail not_running else stop_active d fuel stop nf) s0) can
      ∙ bind_ok _ (mark_stopped_lem d s0 stop nf c.here c.slot)
      ∙ bind_ok _ told
      ∙ bind_ok _ (
          leave_core_lem d s1 stop c.core_ptr (stopped nf) c.core
            (update_self s.nf_mem stop (stopped nf)) c.core_slot c.core_here busy)

module _ {W : Type 0} (d : NfDpdk W) (l : RingLaws d) where
  clean_after :
      {fuel : ℕ} {nf : OnvmNf} {w : W}
      → HasCleanRings d l fuel nf w
      → HasCleanRings d l fuel (stopped nf) (d.free_tag nf.tag w)
  clean_after {nf = nf} {w} c = record {
    rx = c.rx;
    tx = c.tx;
    msg = c.msg;
    rx_q = c.rx_q;
    tx_q = c.tx_q;
    msg_q = c.msg_q;
    rx_empty = l.free_tag_contents c.rx nf.tag w ∙ c.rx_empty;
    tx_empty = l.free_tag_contents c.tx nf.tag w ∙ c.tx_empty;
    msgs_few = omega (arith, c.msgs_few, ap length (l.free_tag_contents c.msg nf.tag w));
  }

  -- With clean rings, the stop goes on to the counts.
  pub stop-released :
      (fuel : ℕ) (stop : Ptr) (nf : OnvmNf) (s : System W) (c : CanStop d stop nf s)
      → HasCleanRings d l (suc fuel) nf s.world
      → is_stoppable nf.status ≡ true
      → 0 < c.core.nf_count
      → (w : W) × (onvm_nf_stop d (suc fuel) stop s
          ≡ (if not (was_started nf.status) then skip else uncount d nf.service_id)
              (released d c w))
        × NoFuller l s.world w
  stop-released fuel stop nf s c clean can busy =
      let (w, cleaned, less) =
        clean_rings_lem d l fuel nf.instance_id stop (stopped nf) c.msg_pool (detached d c) c.slot
          (update_self s.nf_mem stop (stopped nf)) (clean_after clean) c.msg_pool_found in
      (
        d.mempool_put c.info_pool stop w,
        stop-detached d (suc fuel) stop nf s c can busy
            ∙ bind_ok _ cleaned
            ∙ bind_ok _ (free_info_lem d (released d c w) stop c.info_pool (c.info_pool_found w)),
        λ q. omega (
          arith,
          less q,
          ap length (l.free_tag_contents q nf.tag s.world),
          ap length (l.put_contents q c.info_pool stop w),
        ),
      )

  -- A packet that waits in the rx ring makes the stop of an NF that could be stopped, on a core that
  -- counts an NF, panic halfway. By then its tag is freed, it is marked stopped, its core counts it no more and one burst is off
  -- the rx ring; the other rings, its structure and the counts of the manager are not touched.
  pub stop_panics :
      (fuel : ℕ) (stop : Ptr) (nf : OnvmNf) (s : System W) (c : CanStop d stop nf s) (rx : Ring)
      → nf.rx_q ≡ some rx
      → 0 < length (l.contents rx s.world)
      → is_stoppable nf.status ≡ true
      → 0 < c.core.nf_count
      → onvm_nf_stop d (suc fuel) stop s
        ≡ panic index_out_of_bounds (record (detached d c) {
          world = (d.ring_dequeue_burst rx packet_read_size (d.free_tag nf.tag s.world)).1;
        })
  stop_panics fuel stop nf s c rx ring waiting can busy =
      stop-detached d (suc fuel) stop nf s c can busy
      ∙ bind_panic _ (
          clean_rings_panics d l fuel nf.instance_id stop (stopped nf) rx (detached d c) c.slot
            (update_self s.nf_mem stop (stopped nf)) ring
            (omega (arith, waiting, ap length (l.free_tag_contents rx nf.tag s.world))))
