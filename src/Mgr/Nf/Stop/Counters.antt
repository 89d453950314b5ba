-- ===== src/Mgr/Nf/Stop/Counters.antt =====
-- What the counters of the manager stand for, and what marking an NF stopped does to the numbers
-- of NFs that they count.
use native.Mathlib.Decide.{ℕ_discrete}
use rust_onvm_v.Base.{
  ℕ, ◌+◌, ◌-◌, ◌<◌, ◌≡◌, ◌≢◌, ◌∙◌, sym, ap, arith, some, some, Bool, true, false, ◌&&◌, ◌==◌,
  if◌then◌else◌, get_elem?, set, get_elem?-set_self, get_elem?-set_ne, lt_of_get_elem?,
}
use rust_onvm_v.Nflib.Constants.{nf_starting}
use rust_onvm_v.Nflib.Structs.Packets.{Ptr}
use rust_onvm_v.Nflib.Structs.Ports.{CoreStatus}
use rust_onvm_v.Nflib.Structs.Nf.{OnvmNf}
use rust_onvm_v.Mgr.System.{System, update}
use rust_onvm_v.Mgr.Nf.Dpdk.{NfDpdk}
use rust_onvm_v.Mgr.Nf.Stop.Count.{count, Distinct, Distinct-index, count-update, count_pos}
use rust_onvm_v.Mgr.Nf.Stop.Steps.{stopped}
use rust_onvm_v.Mgr.Nf.Stop.Result.{CanStop, released}
use rust_onvm_v.Mgr.Nf.Stop.{was_started, is_stoppable}

abbrev pub started : OnvmNf → Bool
started nf = was_started nf.status

abbrev pub serves : ℕ → OnvmNf → Bool
serves k nf = was_started nf.status && (nf.service_id == k)

abbrev pub on_core : ℕ → OnvmNf → Bool
on_core i nf = is_stoppable nf.status && (nf.thread_info.core == i)

-- The counters of the manager, of its services and of its cores are the numbers of NFs that they
-- stand for.
pub record Accounts {W : Type 0} (s : System W) : Type 0 where
  pub nfs_distinct : Distinct s.global.nfs
  pub cores_distinct : Distinct s.global.cores
  pub total : s.global.num_nfs ≡ count started s.nf_mem s.global.nfs
  pub services :
      (k n : ℕ)
      → get_elem? s.global.nf_per_service_count k ≡ some n
      → n ≡ count (serves k) s.nf_mem s.global.nfs
  pub cores :
      (i : ℕ) (p : Ptr) (c : CoreStatus)
      → get_elem? s.global.cores i ≡ some p
      → s.core_mem p ≡ some c
      → c.nf_count ≡ count (on_core i) s.nf_mem s.global.nfs

pub is_stoppable_of_was_started : (n : ℕ) → was_started n ≡ true → is_stoppable n ≡ true
unfolding was_started is_stoppable
is_stoppable_of_was_started n h = ground arith

pub starting_stoppable : (n : ℕ) → n ≡ nf_starting → is_stoppable n ≡ true
unfolding is_stoppable
starting_stoppable n h = ground arith

pub starting_not_started : (n : ℕ) → n ≡ nf_starting → was_started n ≡ false
unfolding was_started
starting_not_started n h = ground arith

module _ {W : Type 0} (d : NfDpdk W) (stop : Ptr) (nf : OnvmNf) (s : System W)
    (c : CanStop d stop nf s) (a : Accounts s) where
  shift :
      (test : OnvmNf → Bool)
      → count test (update s.nf_mem stop (stopped nf)) s.global.nfs + (if test nf then 1 else 0)
        ≡ count test s.nf_mem s.global.nfs + (if test (stopped nf) then 1 else 0)
  shift test =
      count-update test s.nf_mem s.global.nfs nf.instance_id stop nf (stopped nf) a.nfs_distinct
        c.slot c.here

  pub busy : is_stoppable nf.status ≡ true → 0 < c.core.nf_count
  busy can = omega (
    arith,
    a.cores nf.thread_info.core c.core_ptr c.core c.core_slot c.core_here,
    count_pos (on_core nf.thread_info.core) s.nf_mem s.global.nfs nf.instance_id stop nf c.slot
        c.here (ground arith),
  )

  pub core_left :
      is_stoppable nf.status ≡ true
      → (i : ℕ) (p : Ptr) (k : CoreStatus) (w : W) → get_elem? s.global.cores i ≡ some p
      → (released d c w).core_mem p ≡ some k
      → k.nf_count ≡ count (on_core i) (update s.nf_mem stop (stopped nf)) s.global.nfs
  unfolding is_stoppable
  core_left can i p k w slot there = elim (ℕ_discrete nf.thread_info.core i) [
    | yes e ↦
        let same : p ≡ c.core_ptr = cc (ap (get_elem? s.global.cores) e, c.core_slot) in
        let left : k ≡ record (c.core) { nf_count = c.core.nf_count - 1; is_dedicated_core = 0 } =
          ground arith in
        ground (
          arith,
          shift (on_core i),
          a.cores nf.thread_info.core c.core_ptr c.core c.core_slot c.core_here,
        )
    | no ne ↦
        let other : p ≢ c.core_ptr = λ e. ne (
          Distinct-index s.global.cores nf.thread_info.core i p a.cores_distinct (rw e c.core_slot)
            slot) in
        let kept : s.core_mem p ≡ some k = ground arith in
        ground (arith, shift (on_core i), a.cores i p k slot kept)
  ]

  pub total_left :
      (was_started nf.status ≡ true)
      → s.global.num_nfs - 1 ≡ count started (update s.nf_mem stop (stopped nf)) s.global.nfs
  unfolding was_started
  total_left live = ground (arith, shift started, a.total)

  pub services_left :
      (k i m : ℕ)
      → was_started nf.status ≡ true
      → get_elem? s.global.nf_per_service_count nf.service_id ≡ some k
      → get_elem? (set s.global.nf_per_service_count nf.service_id (k - 1)) i ≡ some m
      → m ≡ count (serves i) (update s.nf_mem stop (stopped nf)) s.global.nfs
  unfolding was_started
  services_left k i m live slot there = elim (ℕ_discrete nf.service_id i) [
    | yes e ↦ ground (
      arith,
      shift (serves i),
      a.services nf.service_id k slot,
      get_elem?-set_self s.global.nf_per_service_count nf.service_id (k - 1)
          (lt_of_get_elem? s.global.nf_per_service_count nf.service_id slot),
    )
    | no ne ↦
        let kept = sym (get_elem?-set_ne s.global.nf_per_service_count (k - 1) ne) ∙ there in
        ground (arith, shift (serves i), a.services i m kept)
  ]

  pub total_kept :
      (was_started nf.status ≡ false)
      → s.global.num_nfs ≡ count started (update s.nf_mem stop (stopped nf)) s.global.nfs
  unfolding was_started
  total_kept new = ground (arith, shift started, a.total)

  pub services_kept :
      (i m : ℕ)
      → was_started nf.status ≡ false
      → get_elem? s.global.nf_per_service_count i ≡ some m
      → m ≡ count (serves i) (update s.nf_mem stop (stopped nf)) s.global.nfs
  unfolding was_started
  services_kept i m new there = ground (arith, shift (serves i), a.services i m there)
