-- ===== src/Mgr/Nf/Stop/Accounts.antt =====
-- The manager's counters agree with the NFs, and a stop keeps it so.
use rust_onvm_v.Base.{
  ℕ, suc, ◌-◌, ◌<◌, ◌≡◌, ◌∙◌, ap, arith, some, some, ok, true, false, if◌then◌else◌, not, get_elem?,
  set, skip,
}
use rust_onvm_v.Nflib.Constants.{nf_starting}
use rust_onvm_v.Nflib.Structs.Packets.{Ptr}
use rust_onvm_v.Nflib.Structs.Nf.{OnvmNf}
use rust_onvm_v.Mgr.System.{System}
use rust_onvm_v.Mgr.Nf.Dpdk.{NfDpdk, RingLaws, NoFuller}
use rust_onvm_v.Mgr.Nf.Stop.Count.{count_pos}
use rust_onvm_v.Mgr.Nf.Stop.Steps.{stopped, uncount_lem}
use rust_onvm_v.Mgr.Nf.Stop.CleanRings.{HasCleanRings}
use rust_onvm_v.Mgr.System.{update_self}
use rust_onvm_v.Mgr.Nf.Stop.Result.{CanStop, released, stop-released}
use rust_onvm_v.Mgr.Nf.Stop.{onvm_nf_stop, was_started, is_stoppable, uncount}
use rust_onvm_v.Mgr.Nf.Stop.Counters.{
  Accounts, busy, core_left, is_stoppable_of_was_started, serves, services_kept, services_left,
  started, starting_not_started, starting_stoppable, total_kept, total_left,
}

module _ {W : Type 0} (d : NfDpdk W) (l : RingLaws d) (fuel : ℕ) (stop : Ptr) (nf : OnvmNf)
    (s : System W) (c : CanStop d stop nf s) (a : Accounts s) where
  -- The state after the stop of an NF that counted as started, whose service counted `k`.
  abbrev pub uncounted : W → ℕ → System W
  uncounted w k = record (released d c w) {
    global = record (s.global) {
      nf_msg_pool = some c.msg_pool;
      num_nfs = s.global.num_nfs - 1;
      nf_per_service_count = set s.global.nf_per_service_count nf.service_id (k - 1);
    };
  }

  pub stop_started_lem :
      (k : ℕ)
      → HasCleanRings d l (suc fuel) nf s.world
      → was_started nf.status ≡ true
      → get_elem? s.global.nf_per_service_count nf.service_id ≡ some k
      → (w : W) × (onvm_nf_stop d (suc fuel) stop s ≡ ok tt (uncounted w k))
        × Accounts (uncounted w k)
        × NoFuller l s.world w
  stop_started_lem k clean live slot =
      let can = is_stoppable_of_was_started nf.status live in
      let (w, e, less) = stop-released d l fuel stop nf s c clean can (busy d stop nf s c a can) in
      let some_nf : 0 < s.global.num_nfs = omega (
        arith,
        a.total,
        count_pos started s.nf_mem s.global.nfs nf.instance_id stop nf c.slot c.here live,
      ) in
      let serving : serves nf.service_id nf ≡ true = ground arith in
      let some_service : 0 < k = omega (
        arith,
        a.services nf.service_id k slot,
        count_pos (serves nf.service_id) s.nf_mem s.global.nfs nf.instance_id stop nf c.slot c.here
            serving,
      ) in
      (
        w,
        e
            ∙ ap (λ b. (if not b then skip else uncount d nf.service_id) (released d c w)) live
            ∙ uncount_lem d (released d c w) nf.service_id k some_nf slot some_service,
        record {
          nfs_distinct = a.nfs_distinct;
          cores_distinct = a.cores_distinct;
          total = total_left d stop nf s c a live;
          services = λ i m there. services_left d stop nf s c a k i m live slot there;
          cores = λ i p q there held. core_left d stop nf s c a can i p q w there held;
        },
        less,
      )

  pub stop_starting_lem :
      HasCleanRings d l (suc fuel) nf s.world
      → nf.status ≡ nf_starting
      → (w : W) × (onvm_nf_stop d (suc fuel) stop s ≡ ok tt (released d c w))
        × Accounts (released d c w)
        × NoFuller l s.world w
  stop_starting_lem clean new =
      let can : is_stoppable nf.status ≡ true = starting_stoppable nf.status new in
      let not_yet : was_started nf.status ≡ false = starting_not_started nf.status new in
      let (w, e, less) = stop-released d l fuel stop nf s c clean can (busy d stop nf s c a can) in
      (
        w,
        e ∙ ap (λ b. (if not b then skip else uncount d nf.service_id) (released d c w)) not_yet,
        record {
          nfs_distinct = a.nfs_distinct;
          cores_distinct = a.cores_distinct;
          total = total_kept d stop nf s c a not_yet;
          services = λ i m there. services_kept d stop nf s c a i m not_yet there;
          cores = λ i p q there held. core_left d stop nf s c a can i p q w there held;
        },
        less,
      )

  -- In a manager whose counters agree with its NFs, which knows the NF, its parent and its core,
  -- finds both pools and has a count for the NF's service, a running or paused NF whose rings are clean is stopped, and the counters
  -- agree again with the NFs: in particular none of them falls below 0 on the way.
  pub stop-Accounts :
      (k : ℕ)
      → HasCleanRings d l (suc fuel) nf s.world
      → was_started nf.status ≡ true
      → get_elem? s.global.nf_per_service_count nf.service_id ≡ some k
      → (t : System W) × (onvm_nf_stop d (suc fuel) stop s ≡ ok tt t)
        × Accounts t
        × (t.nf_mem stop ≡ some (stopped nf))
  stop-Accounts k clean live slot =
      let (w, e, kept, less) = stop_started_lem k clean live slot in
      (uncounted w k, e, kept, update_self s.nf_mem stop (stopped nf))

  -- In a manager whose counters agree with its NFs, which knows the NF, its parent and its core and
  -- finds both pools, an NF that is still starting and whose rings are clean is stopped too, and
  -- the counters agree again with the NFs.
  pub stop_starting-Accounts :
      HasCleanRings d l (suc fuel) nf s.world
      → nf.status ≡ nf_starting
      → (t : System W) × (onvm_nf_stop d (suc fuel) stop s ≡ ok tt t)
        × Accounts t
        × (t.nf_mem stop ≡ some (stopped nf))
  stop_starting-Accounts clean new =
      let (w, e, kept, less) = stop_starting_lem clean new in
      (released d c w, e, kept, update_self s.nf_mem stop (stopped nf))
