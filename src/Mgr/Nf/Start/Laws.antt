-- ===== src/Mgr/Nf/Start/Laws.antt =====
-- Laws of the start of an NF, `onvm_nf_next_instance_id` and `onvm_nf_start`.
use rust_onvm_v.Base.{
  ℕ, zero, suc, ◌≡◌, ◌≢◌, ◌≤◌, inl, inr, ◌⊎◌, true, and_then, index_at, ◌>>=◌, fault, exit, refl,
  arith, some, Run, ok, err, panic, index_out_of_bounds, out_of_fuel, leb, ◌==◌, not, if◌then◌else◌,
  length, Bool-cases, Option-cases, get_elem?, get_elem?_ge,
}
use rust_onvm_v.Nflib.Constants.{
  max_nfs, max_nfs_per_service, nf_waiting_for_id, nf_running, nf_service_max, nf_id_conflict,
}
use rust_onvm_v.Nflib.Structs.Packets.{Ptr}
use rust_onvm_v.Nflib.Structs.Nf.{OnvmNf, OnvmNfInitCfg}
use rust_onvm_v.Mgr.System.{System}
use rust_onvm_v.Mgr.Nf.Start.{
  NfError, waiting_for_id, service_count_max, id_conflict, id_loop, onvm_nf_next_instance_id,
  start_with_id, onvm_nf_start,
}

id_loop_lem :
    {S W : Type 0} (sys : System W) (fuel : ℕ) (s : S) (p : Ptr) (nf : OnvmNf)
    → get_elem? sys.global.nfs 1 ≡ some p
    → sys.nf_mem p ≡ some nf
    → id_loop sys (suc fuel) s ≡ (if nf.status == nf_running then ok 1 s else out_of_fuel s)
unfolding id_loop
id_loop_lem sys zero s p nf slot here = ground arith
id_loop_lem sys (suc fuel) s p nf slot here = ground (arith, id_loop_lem sys fuel s p nf slot here)

-- What the allocator does where slot 1 can be read: with all ids in use it returns 128, with a
-- running NF in slot 1 it returns 1, and else it runs through any amount of fuel.
pub next_instance_id_lem :
    {S W : Type 0} (sys : System W) (fuel : ℕ) (s : S) (p : Ptr) (nf : OnvmNf)
    → get_elem? sys.global.nfs 1 ≡ some p
    → sys.nf_mem p ≡ some nf
    → onvm_nf_next_instance_id sys (suc fuel) s ≡ (
        if leb max_nfs sys.global.num_nfs
        then ok max_nfs s
        else if nf.status == nf_running
        then ok 1 s
        else out_of_fuel s)
unfolding onvm_nf_next_instance_id
next_instance_id_lem sys fuel s p nf slot here =
    ground (arith, id_loop_lem sys fuel s p nf slot here)

-- A running NF sits in slot `n`.
abbrev pub Occupied : {W : Type 0} → System W → ℕ → Type 0
Occupied sys n =
    (p : Ptr) × (nf : OnvmNf) × (get_elem? sys.global.nfs n ≡ some p)
    × (sys.nf_mem p ≡ some nf)
    × ((nf.status == nf_running) ≡ true)

id_loop-Occupied :
    {S W : Type 0} (sys : System W) (fuel : ℕ) (s t : S) (n : ℕ)
    → id_loop sys fuel s ≡ ok n t
    → Occupied sys n
unfolding id_loop
id_loop-Occupied sys zero s t n h = cc
id_loop-Occupied sys (suc fuel) s t n h = elim (Option-cases (get_elem? sys.global.nfs 1)) [
  | inl e ↦ ground arith
  | inr (p, e) ↦ elim (Option-cases (sys.nf_mem p)) [
    | inl e' ↦ ground arith
    | inr (nf, e') ↦ elim (Bool-cases (nf.status == nf_running)) [
      | inl run ↦ let one : n ≡ 1 = ground arith in (p, nf, rw one e, e', run)
      | inr idle ↦ id_loop-Occupied sys fuel s t n (ground arith)
    ]
  ]
]

-- An id that the allocator hands out is 128 or above, or that of an NF that is running.
pub next_instance_id-Occupied :
    {S W : Type 0} (sys : System W) (fuel : ℕ) (s t : S) (n : ℕ)
    → onvm_nf_next_instance_id sys fuel s ≡ ok n t
    → (max_nfs ≤ n) ⊎ Occupied sys n
unfolding onvm_nf_next_instance_id
next_instance_id-Occupied sys fuel s t n h = elim (Bool-cases (leb max_nfs sys.global.num_nfs)) [
  | inl full ↦ inl (ground arith)
  | inr room ↦ inr (id_loop-Occupied sys fuel s t n (ground arith))
]

start_with_id-ne-ok :
    {W : Type 0} (sys : System W) (n k : ℕ) (p : Ptr) (cfg cfg' : OnvmNfInitCfg)
    → get_elem? sys.global.nfs n ≡ some p
    → (max_nfs ≤ n) ⊎ Occupied sys n
    → start_with_id sys n p k cfg ≢ ok tt cfg'
unfolding start_with_id
start_with_id-ne-ok sys n k p cfg cfg' slot (inl big) h = ground arith
start_with_id-ne-ok sys n k p cfg cfg' slot (inr (q, nf, e, e', run)) h = ground arith

choice-ne-ok :
    {W : Type 0} (sys : System W) (k : ℕ) (r : Run NfError OnvmNfInitCfg ℕ) (cfg' : OnvmNfInitCfg)
    → ((n : ℕ) (c : OnvmNfInitCfg) → r ≡ ok n c → (max_nfs ≤ n) ⊎ Occupied sys n)
    → and_then r (λ n. index_at sys.global.nfs n >>= λ p. start_with_id sys n p k) ≢ ok tt cfg'
choice-ne-ok sys k (ok n c) cfg' chosen h = elim (Option-cases (get_elem? sys.global.nfs n)) [
  | inl e ↦ ground arith
  | inr (p, e) ↦ start_with_id-ne-ok sys n k p c cfg' e (chosen n c refl) (ground arith)
]
choice-ne-ok sys k (err e c) cfg' chosen h = cc
choice-ne-ok sys k (panic e c) cfg' chosen h = cc
choice-ne-ok sys k (fault c) cfg' chosen h = cc
choice-ne-ok sys k (exit c) cfg' chosen h = cc
choice-ne-ok sys k (out_of_fuel c) cfg' chosen h = cc

-- No NF is ever started: whatever the state, the configuration and the fuel, `onvm_nf_start` does
-- not return `Ok`.
pub onvm_nf_start-ne-ok :
    {W : Type 0} (sys : System W) (fuel : ℕ) (cfg cfg' : OnvmNfInitCfg)
    → onvm_nf_start sys fuel cfg ≢ ok tt cfg'
unfolding onvm_nf_start
onvm_nf_start-ne-ok sys fuel cfg cfg' h =
    elim (Bool-cases (not (cfg.service_id == nf_waiting_for_id))) [
      | inl other ↦ ground arith
      | inr waiting ↦
          choice-ne-ok sys cfg.service_id (onvm_nf_next_instance_id sys fuel cfg) cfg'
            (λ n c. next_instance_id-Occupied sys fuel cfg c n) (rw waiting at h)
    ]

-- What a start does in a manager with 128 slots, of which slot 1 can be read: it fails on a service
-- id, panics where all ids are in use, runs on where the NF in slot 1 is not running, and else
-- reports a full service or an id conflict. What the configuration is left with is said too.
pub onvm_nf_start_lem :
    {W : Type 0} (sys : System W) (fuel : ℕ) (cfg : OnvmNfInitCfg) (p : Ptr) (nf : OnvmNf) (n : ℕ)
    → length sys.global.nfs ≡ max_nfs
    → get_elem? sys.global.nfs 1 ≡ some p
    → sys.nf_mem p ≡ some nf
    → get_elem? sys.global.nf_per_service_count 0 ≡ some n
    → onvm_nf_start sys (suc fuel) cfg ≡ (
        if not (cfg.service_id == nf_waiting_for_id)
        then err waiting_for_id cfg
        else if leb max_nfs sys.global.num_nfs
        then panic index_out_of_bounds cfg
        else if not (nf.status == nf_running)
        then out_of_fuel cfg
        else if leb max_nfs_per_service n
        then err service_count_max (record cfg { status = nf_service_max })
        else err id_conflict (record cfg { status = nf_id_conflict }))
unfolding onvm_nf_start start_with_id
onvm_nf_start_lem sys fuel cfg p nf n size slot here count =
    ground
      (arith, next_instance_id_lem sys fuel cfg p nf slot here, get_elem?_ge sys.global.nfs 128)
