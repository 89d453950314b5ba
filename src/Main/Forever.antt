-- ===== src/Main/Forever.antt =====
-- The main loop under the limits that the thread starts with.
use rust_onvm_v.Base.{
  ℕ, zero, suc, ◌≡◌, ◌≢◌, ◌∙◌, sym, ap, arith, Bool, false, ok, and_then_ok, skip, ◌||◌, ◌%◌, ◌^◌,
  if◌then◌else◌,
}
use rust_onvm_v.Nflib.Structs.Packets.{Ptr}
use rust_onvm_v.Mgr.System.{System}
use rust_onvm_v.Mgr.Nf.Dpdk.{NfDpdk}
use rust_onvm_v.Mgr.Nf.Messages.{onvm_nf_check_status}
use rust_onvm_v.Main.{
  Timer, initial, cycles, ttl_exceeded, limit_reached, main_loop, master_thread_main,
}

module _ {W : Type 0} (d : NfDpdk W) (k : Timer W) where
  never_expires :
      (start : ℕ) (s t : System W) (b : Bool)
      → ttl_exceeded d k initial start s ≡ ok b t
      → b ≡ false
  unfolding ttl_exceeded cycles
  never_expires start s t b h = ground arith

  main_loop-ne-ok :
      (fuel : ℕ) (vec : Ptr) (start : ℕ) (s t : System W)
      → main_loop d k fuel vec initial start s ≢ ok tt t
  unfolding main_loop limit_reached
  main_loop-ne-ok zero vec start s t h = cc
  main_loop-ne-ok (suc fuel) vec start s t h =
      let (a, s1, e1, h1) = and_then_ok (onvm_nf_check_status d fuel vec s) _ h in
      let (b, s2, e2, h2) = and_then_ok (ttl_exceeded d k initial start s1) _ h1 in
      main_loop-ne-ok fuel vec start s2 t (
        sym (
          ap (λ b. (if b || false then skip else main_loop d k fuel vec initial start) s2)
            (never_expires start s1 s2 b e2))
        ∙ h2)

  -- The main thread sets neither a time to live nor a packet limit: with these limits the main loop
  -- does not end by itself, whenever it was started and however much fuel it has, and the thread
  -- does not return.
  pub master_thread_main-ne-ok :
      (fuel : ℕ) (vec : Ptr) (start : ℕ) (s t : System W)
      → (main_loop d k fuel vec initial start s ≢ ok tt t)
        × (master_thread_main d k fuel vec s ≢ ok tt t)
  unfolding master_thread_main cycles
  master_thread_main-ne-ok fuel vec start s t = (
    main_loop-ne-ok fuel vec start s t,
    λ h.
        let (c, w) = k.tsc_cycles s.world in
        let s0 : System W = record s { world = w } in
        let (a, s1, e1, h1) = and_then_ok (main_loop d k fuel vec initial (c % 2 ^ 64) s0) _ h in
        main_loop-ne-ok fuel vec (c % 2 ^ 64) s0 s1 e1,
  )
