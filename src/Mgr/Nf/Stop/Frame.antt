-- ===== src/Mgr/Nf/Stop/Frame.antt =====
-- What `onvm_nf_stop` does to the NFs and to the slots, however it ends.
use rust_onvm_v.Base.{
  ℕ, zero, suc, ◌≡◌, ◌∙◌, refl, ap, arith, List, Option, none, some, Bool, final, skip, bind_ok,
  deref_ok, get_elem?, if◌then◌else◌, not, ◌>>◌, fail, eq_ℤ, pos, Bool-cases, inl, inr, get, modify,
}
use rust_onvm_v.Nflib.Constants.{nf_msg_pool_name, packet_read_size}
use rust_onvm_v.Nflib.Structs.Packets.{Ptr}
use rust_onvm_v.Nflib.Structs.Nf.{Ring, OnvmNf}
use rust_onvm_v.Mgr.Global.{Pool}
use rust_onvm_v.Mgr.System.{System, update, effect, call, nf_at, load_nf}
use rust_onvm_v.Mgr.Frame.{
  Keeps, Keeps-intro, Keeps-elim, Keeps-seq, Keeps-bind, Keeps-if, Keeps-index_at, Keeps-deref,
}
use rust_onvm_v.Mgr.Nf.Dpdk.{NfDpdk}
use rust_onvm_v.Mgr.Nf.Start.{NfError, not_running}
use rust_onvm_v.Mgr.Nf.Stop.Steps.{stopped, mark_stopped_lem}
use rust_onvm_v.Mgr.Nf.Stop.{
  Step, pkts, free_pkts, drain_loop, drain_ring, drain_msgs, drain_msg_ring, tell_parent,
  leave_core, clean_rings, free_info, uncount, is_stoppable, was_started, stop_active, onvm_nf_stop,
}

-- The NFs, and the slots that lead to them.
abbrev pub nf_table : {W : Type 0} → System W → (Ptr → Option OnvmNf) × List Ptr
nf_table s = (s.nf_mem, s.global.nfs)

module _ {W : Type 0} (d : NfDpdk W) where
  nf_at-Keeps : (i : ℕ) → Keeps {E = NfError} {S = System W} nf_table (nf_at i)
  unfolding Keeps
  nf_at-Keeps i s = ground arith

  load_nf-Keeps : (p : Ptr) → Keeps {E = NfError} {S = System W} nf_table (load_nf p)
  unfolding Keeps
  load_nf-Keeps p s = ground arith

  effect-Keeps : (f : W → W) → Keeps {E = NfError} nf_table (effect f)
  unfolding Keeps
  effect-Keeps f s = refl

  call-Keeps : {A : Type 0} (f : W → A × W) → Keeps {E = NfError} nf_table (call f)
  unfolding Keeps
  call-Keeps f s = refl

  free_pkts-Keeps : (n i : ℕ) → Keeps nf_table (free_pkts d n i)
  unfolding free_pkts
  free_pkts-Keeps zero i = Keeps-intro nf_table _ (λ s. refl)
  free_pkts-Keeps (suc n) i =
      Keeps-bind nf_table _ _ (Keeps-index_at NfError nf_table pkts i)
        λ p. Keeps-seq nf_table _ _ (effect-Keeps (d.pktmbuf_free p)) (free_pkts-Keeps n (suc i))

  drain_loop-Keeps : (fuel : ℕ) (ring : Ring) (n : ℕ) → Keeps nf_table (drain_loop d fuel ring n)
  unfolding drain_loop
  drain_loop-Keeps fuel ring zero = Keeps-intro nf_table _ (λ s. refl)
  drain_loop-Keeps zero ring (suc n) = Keeps-intro nf_table _ (λ s. refl)
  drain_loop-Keeps (suc fuel) ring (suc n) = Keeps-seq nf_table _ _ (free_pkts-Keeps (suc n) 0) (
      Keeps-bind nf_table _ _ (call-Keeps (d.ring_dequeue_burst ring packet_read_size))
        (λ k. drain_loop-Keeps fuel ring k))

  drain_ring-Keeps : (fuel : ℕ) (o : Option Ring) → Keeps nf_table (drain_ring d fuel o)
  unfolding drain_ring
  drain_ring-Keeps fuel none = Keeps-intro nf_table _ (λ s. refl)
  drain_ring-Keeps fuel (some ring) =
      Keeps-bind nf_table _ _ (call-Keeps (d.ring_dequeue_burst ring packet_read_size))
        (λ k. drain_loop-Keeps fuel ring k)

  drain_msgs-Keeps :
      (fuel : ℕ) (pool : Pool) (ring : Ring) → Keeps nf_table (drain_msgs d fuel pool ring)
  unfolding drain_msgs
  drain_msgs-Keeps zero pool ring = Keeps-intro nf_table _ (λ s. refl)
  drain_msgs-Keeps (suc fuel) pool ring =
      Keeps-bind nf_table _ _ (call-Keeps (d.ring_dequeue ring)) λ r.
        Keeps-if nf_table (eq_ℤ r.0 (pos 0))
          (effect (d.mempool_put pool r.1) >> drain_msgs d fuel pool ring) skip
          (Keeps-seq nf_table _ _ (effect-Keeps (d.mempool_put pool r.1))
            (drain_msgs-Keeps fuel pool ring))
          (Keeps-intro nf_table _ (λ s. refl))

  drain_msg_ring-Keeps :
      (fuel : ℕ) (pool : Pool) (o : Option Ring) → Keeps nf_table (drain_msg_ring d fuel pool o)
  unfolding drain_msg_ring
  drain_msg_ring-Keeps fuel pool none = Keeps-intro nf_table _ (λ s. refl)
  drain_msg_ring-Keeps fuel pool (some ring) = drain_msgs-Keeps fuel pool ring

  tell_parent-Keeps : (nf_id : ℕ) → Keeps nf_table (tell_parent d nf_id)
  unfolding tell_parent Keeps
  tell_parent-Keeps nf_id s = ground arith

  leave_core-Keeps : (stop : Ptr) → Keeps nf_table (leave_core d stop)
  unfolding leave_core Keeps
  leave_core-Keeps stop s = ground arith

  free_info-Keeps : (stop : Ptr) → Keeps nf_table (free_info d stop)
  unfolding free_info Keeps
  free_info-Keeps stop s = ground arith

  uncount-Keeps : (service : ℕ) → Keeps nf_table (uncount d service)
  unfolding uncount Keeps
  uncount-Keeps service s = ground arith

  abbrev keep_pool : Pool → Step d (Unit {0})
  keep_pool pool = modify (λ s. record s { global = record (s.global) { nf_msg_pool = some pool } })

  clean_rings-Keeps : (fuel nf_id : ℕ) → Keeps nf_table (clean_rings d fuel nf_id)
  unfolding clean_rings
  clean_rings-Keeps fuel nf_id = Keeps-bind nf_table _ _ (nf_at-Keeps nf_id) λ p.
      Keeps-bind nf_table _ _ (load_nf-Keeps p) λ nf.
        Keeps-seq nf_table _ _ (drain_ring-Keeps fuel nf.rx_q) (
          Keeps-bind nf_table _ _ (nf_at-Keeps nf_id) λ p.
            Keeps-bind nf_table _ _ (load_nf-Keeps p) λ nf.
              Keeps-seq nf_table _ _ (drain_ring-Keeps fuel nf.tx_q) (
                Keeps-bind nf_table get _ (Keeps-intro nf_table _ (λ s. refl)) λ s.
                  Keeps-bind nf_table _ _
                    (Keeps-deref NfError nf_table (d.mempool_lookup nf_msg_pool_name s.world))
                    λ pool.
                      Keeps-seq nf_table (keep_pool pool) _ (Keeps-intro nf_table _ (λ s. refl)) (
                        Keeps-bind nf_table _ _ (nf_at-Keeps nf_id) λ p.
                          Keeps-bind nf_table _ _ (load_nf-Keeps p)
                            λ nf. drain_msg_ring-Keeps fuel pool nf.msg_q)))

  -- After the status has been written, no call changes an NF or a slot.
  abbrev rest : ℕ → Ptr → OnvmNf → Step d (Unit {0})
  rest fuel stop nf = do
    tell_parent d nf.instance_id
    leave_core d stop
    clean_rings d fuel nf.instance_id
    free_info d stop
    (if not (was_started nf.status) then skip else uncount d nf.service_id)

  rest-Keeps : (fuel : ℕ) (stop : Ptr) (nf : OnvmNf) → Keeps nf_table (rest fuel stop nf)
  rest-Keeps fuel stop nf = Keeps-bind nf_table _ _ (tell_parent-Keeps nf.instance_id) λ _.
      Keeps-seq nf_table _ _ (leave_core-Keeps stop) (
        Keeps-seq nf_table _ _ (clean_rings-Keeps fuel nf.instance_id) (
          Keeps-seq nf_table _ _ (free_info-Keeps stop) (
            Keeps-if nf_table (not (was_started nf.status)) skip (uncount d nf.service_id)
              (Keeps-intro nf_table _ (λ s. refl)) (uncount-Keeps nf.service_id))))

  -- However a stop ends, the NF in its slot is stopped if its status allowed for it, and no other NF
  -- and no slot has changed.
  pub stop-nf_table :
      (fuel : ℕ) (stop : Ptr) (nf : OnvmNf) (s : System W)
      → s.nf_mem stop ≡ some nf
      → get_elem? s.global.nfs nf.instance_id ≡ some stop
      → nf_table (final (onvm_nf_stop d fuel stop s)) ≡ (
        if is_stoppable nf.status then update s.nf_mem stop (stopped nf) else s.nf_mem,
        s.global.nfs,
      )
  unfolding onvm_nf_stop stop_active
  stop-nf_table fuel stop nf s here slot =
      let s0 : System W = record s { world = d.free_tag nf.tag s.world } in
      let s1 : System W = record s0 { nf_mem = update s.nf_mem stop (stopped nf) } in
      let start : onvm_nf_stop d fuel stop s
          ≡ (if not (is_stoppable nf.status) then fail not_running else stop_active d fuel stop nf)
              s0 =
        bind_ok _ (deref_ok s here) in
      let chosen =
        λ (b : Bool). (if not b then fail not_running else stop_active d fuel stop nf) s0 in
      elim (Bool-cases (is_stoppable nf.status)) [
        | inl can ↦
            ap (λ r. nf_table (final r))
              (start ∙ ap chosen can ∙ bind_ok _ (mark_stopped_lem d s0 stop nf here slot))
            ∙ Keeps-elim nf_table (rest fuel stop nf) (rest-Keeps fuel stop nf) s1
            ∙ rw can refl
        | inr refused ↦ ap (λ r. nf_table (final r)) (start ∙ ap chosen refused) ∙ rw refused refl
      ]
