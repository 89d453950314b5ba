-- ===== src/Main/Frame.antt =====
-- What the main thread of onvm_mgr/src/lib.rs leaves alone.
use rust_onvm_v.Base.{
  ℕ, zero, suc, ◌+◌, ◌-◌, ◌*◌, ◌/◌, false, ◌%◌, ◌^◌, ◌≡◌, refl, Option, some, none, overflow,
  division_by_zero, final, ltb, leb, ◌==◌, ◌||◌, not, eq_ℤ, pos, ℤ,
}
use rust_onvm_v.Nflib.Constants.{max_nfs, nf_running, time_ttl_multiplier}
use rust_onvm_v.Nflib.Structs.Packets.{Ptr}
use rust_onvm_v.Nflib.Structs.Ports.{PortInfo}
use rust_onvm_v.Nflib.Structs.Nf.{Ring, OnvmNfMsg, nf_stopping}
use rust_onvm_v.Mgr.System.{System, own, load_nf, nf_at, call, effect}
use rust_onvm_v.Mgr.Frame.{
  Keeps, Keeps-intro, Keeps-elim, Keeps-bind, Keeps-seq, Keeps-if, Keeps-ok, Keeps-panic,
  Keeps-index_at, Keeps-deref, Keeps-read,
}
use rust_onvm_v.Mgr.Nf.Dpdk.{NfDpdk}
use rust_onvm_v.Mgr.Nf.Start.{NfError}
use rust_onvm_v.Mgr.Nf.Messages.{
  process_msgs, take_msgs, deliver, enqueue, onvm_nf_send_msg, onvm_nf_check_status,
}
use rust_onvm_v.Main.{
  Timer, MgrState, initial, total_rx, limit_reached, ttl_exceeded, cycles, main_loop, notify_one,
  notify_stop, wait_exits, shutdown, max_shutdown_iters, master_thread_main,
}

module _ {W : Type 0} (d : NfDpdk W) where
  call-Keeps : {A : Type 0} (f : W → A × W) → Keeps {E = NfError} own (call f)
  call-Keeps f = Keeps-intro own _ (λ s. refl)

  effect-Keeps : (f : W → W) → Keeps {E = NfError} own (effect f)
  effect-Keeps f = Keeps-intro own _ (λ s. refl)

  -- The vector of messages holds none, so that the first round panics.
  process_msgs-Keeps : (fuel : ℕ) (vec : Ptr) (n i : ℕ) → Keeps own (process_msgs d fuel vec n i)
  unfolding process_msgs
  process_msgs-Keeps fuel vec zero i = Keeps-intro own _ (λ s. refl)
  process_msgs-Keeps fuel vec (suc n) i = Keeps-intro own _ (λ s. refl)

  take_msgs-Keeps :
      (fuel : ℕ) (vec : Ptr) (queue : Ring) (n : ℕ) → Keeps own (take_msgs d fuel vec queue n)
  unfolding take_msgs
  take_msgs-Keeps fuel vec queue n = Keeps-if own (n == 0) _ _ (Keeps-ok NfError own tt) (
      Keeps-bind own _ _ (call-Keeps (d.ring_dequeue_bulk queue n))
        λ m. Keeps-if own (m == 0) _ _ (Keeps-ok NfError own tt) (process_msgs-Keeps fuel vec n 0))

  check_status-Keeps : (fuel : ℕ) (vec : Ptr) → Keeps own (onvm_nf_check_status d fuel vec)
  unfolding onvm_nf_check_status
  check_status-Keeps fuel vec =
      Keeps-read own (λ s. s) _
        λ s.
          Keeps-bind own _ _ (Keeps-deref NfError own s.global.incoming_msg_queue)
            λ queue. take_msgs-Keeps fuel vec queue (d.ring_count queue s.world)

  enqueue-Keeps : (o : Option Ring) (boxed : Ptr) → Keeps own (enqueue d o boxed)
  unfolding enqueue
  enqueue-Keeps none boxed = Keeps-intro own _ (λ s. refl)
  enqueue-Keeps (some q) boxed = call-Keeps (d.ring_enqueue q boxed)

  nf_at-Keeps : (i : ℕ) → Keeps {E = NfError} {S = System W} own (nf_at i)
  nf_at-Keeps i = Keeps-read own (λ s. s.global.nfs) _ (λ nfs. Keeps-index_at NfError own nfs i)

  load_nf-Keeps : (p : Ptr) → Keeps {E = NfError} {S = System W} own (load_nf p)
  load_nf-Keeps p = Keeps-read own (λ s. s.nf_mem p) _ (λ o. Keeps-deref NfError own o)

  deliver-Keeps : (ret : ℤ) (dest : ℕ) (boxed : Ptr) → Keeps own (deliver d ret dest boxed)
  unfolding deliver
  deliver-Keeps ret dest boxed =
      Keeps-if own (not (eq_ℤ ret (pos 0))) _ _ (Keeps-ok NfError own ret) (
        Keeps-bind own _ _ (nf_at-Keeps dest)
          λ p. Keeps-bind own _ _ (load_nf-Keeps p) λ nf. enqueue-Keeps nf.msg_q boxed)

  send_msg-Keeps : (dest : ℕ) (msg : OnvmNfMsg) → Keeps own (onvm_nf_send_msg d dest msg)
  unfolding onvm_nf_send_msg
  send_msg-Keeps dest msg = Keeps-bind own _ _ (call-Keeps (d.box_new msg)) λ boxed.
      Keeps-read own (λ s. s.global.nf_msg_pool) _
        λ o. Keeps-bind own _ _ (Keeps-deref NfError own o) λ pool.
          Keeps-bind own _ _ (call-Keeps (d.mempool_get pool)) λ ret.
            Keeps-bind own _ _ (deliver-Keeps ret dest boxed)
              λ r. Keeps-seq own _ _ (effect-Keeps (d.box_drop boxed)) (Keeps-ok NfError own r)

  total_rx-Keeps : (ports : PortInfo) (n i total : ℕ) → Keeps own (total_rx d ports n i total)
  unfolding total_rx
  total_rx-Keeps ports zero i total = Keeps-ok NfError own total
  total_rx-Keeps ports (suc n) i total =
      Keeps-bind own _ _ (Keeps-index_at NfError own ports.id i) λ id.
        Keeps-bind own _ _ (Keeps-index_at NfError own ports.rx_stats.rx id) λ rx.
          Keeps-if own (ltb (total + rx % 2 ^ 32) (2 ^ 32)) _ _
            (total_rx-Keeps ports n (suc i) (total + rx % 2 ^ 32))
            (Keeps-panic NfError own _ overflow)

  limit_reached-Keeps : (st : MgrState) → Keeps own (limit_reached d st)
  unfolding limit_reached
  limit_reached-Keeps st =
      Keeps-if own (ltb 0 st.global_pkt_limit) _ _
        (Keeps-read own (λ s. s.global.ports) _
          λ o. Keeps-bind own _ _ (Keeps-deref NfError own o) λ ports.
            Keeps-bind own _ _ (total_rx-Keeps ports ports.num_ports 0 0)
              λ total. Keeps-ok NfError own _)
        (Keeps-ok NfError own _)

  notify_one-Keeps : (i : ℕ) → Keeps own (notify_one d i)
  unfolding notify_one
  notify_one-Keeps i = Keeps-bind own _ _ (nf_at-Keeps i) λ p.
      Keeps-bind own _ _ (load_nf-Keeps p) λ nf.
        Keeps-if own (nf.status == nf_running) _ _ (Keeps-ok NfError own tt)
          (Keeps-seq own _ _ (send_msg-Keeps i (nf_stopping p)) (Keeps-ok NfError own tt))

  notify_stop-Keeps : (n i : ℕ) → Keeps own (notify_stop d n i)
  unfolding notify_stop
  notify_stop-Keeps zero i = Keeps-ok NfError own tt
  notify_stop-Keeps (suc n) i = Keeps-seq own _ _ (notify_one-Keeps i) (notify_stop-Keeps n (suc i))

  wait_exits-Keeps : (n fuel : ℕ) (vec : Ptr) → Keeps own (wait_exits d n fuel vec)
  unfolding wait_exits
  wait_exits-Keeps zero fuel vec = Keeps-ok NfError own tt
  wait_exits-Keeps (suc n) fuel vec =
      Keeps-seq own _ _ (check_status-Keeps fuel vec) (wait_exits-Keeps n fuel vec)

  module _ (k : Timer W) where
    cycles-Keeps : Keeps own (cycles d k)
    unfolding cycles
    cycles-Keeps =
        Keeps-bind own _ _ (call-Keeps k.tsc_cycles) λ c. Keeps-ok NfError own (c % 2 ^ 64)

    ttl_exceeded-Keeps : (st : MgrState) (start : ℕ) → Keeps own (ttl_exceeded d k st start)
    unfolding ttl_exceeded
    ttl_exceeded-Keeps st start = Keeps-bind own _ _ cycles-Keeps λ cur.
        Keeps-if own (ltb cur start) _ _ (Keeps-panic NfError own _ overflow) (
          Keeps-read own (λ s. k.timer_hz s.world) _
            λ hz.
              Keeps-if own (ltb 0 st.global_time_to_live) _ _
                (Keeps-if own (hz == 0) _ _ (Keeps-panic NfError own _ division_by_zero) (
                  Keeps-ok NfError own
                    (leb st.global_time_to_live ((cur - start) * time_ttl_multiplier / hz))))
                (Keeps-ok NfError own false))

    main_loop-Keeps :
        (fuel : ℕ) (vec : Ptr) (st : MgrState) (start : ℕ)
        → Keeps own (main_loop d k fuel vec st start)
    unfolding main_loop
    main_loop-Keeps zero vec st start = Keeps-intro own _ (λ s. refl)
    main_loop-Keeps (suc fuel) vec st start = Keeps-seq own _ _ (check_status-Keeps fuel vec) (
        Keeps-bind own _ _ (ttl_exceeded-Keeps st start) λ expired.
          Keeps-bind own _ _ (limit_reached-Keeps st) λ reached.
            Keeps-if own (expired || reached) _ _ (Keeps-ok NfError own tt)
              (main_loop-Keeps fuel vec st start))

    -- However the main thread ends, whatever messages NFs send it and however long it runs, the
    -- global state, all NFs and all cores are what they were when it was started: it never starts an
    -- NF, marks one as ready or stops one.
    pub master_thread_main-own :
        (fuel : ℕ) (vec : Ptr) (s : System W)
        → own (final (master_thread_main d k fuel vec s)) ≡ own s
    unfolding master_thread_main shutdown
    master_thread_main-own fuel vec s =
        Keeps-elim own _
          (Keeps-bind own _ _ cycles-Keeps λ start.
            Keeps-seq own _ _ (main_loop-Keeps fuel vec initial start) (
              Keeps-seq own _ _ (notify_stop-Keeps max_nfs 0)
                (wait_exits-Keeps max_shutdown_iters fuel vec)))
          s
