-- ===== src/Mgr/System.antt =====
-- What the manager reads and writes: its global state, the memory zones that hold the NFs and the
-- core status, and the world of DPDK, which is a parameter.
use mathlib.Core.Path.{fun_ext}
use rust_onvm_v.Base.{◌≡◌, arith, ℕ, Option, some, Cmd, ok, deref, index_at, ◌==◌, if◌then◌else◌}
use rust_onvm_v.Nflib.Structs.Packets.{Ptr}
use rust_onvm_v.Nflib.Structs.Ports.{CoreStatus}
use rust_onvm_v.Nflib.Structs.Nf.{OnvmNf}
use rust_onvm_v.Mgr.Global.{GlobalNfState}

pub record System (W : Type 0) : Type 0 where
  pub global : GlobalNfState
  pub nf_mem : Ptr → Option OnvmNf
  pub core_mem : Ptr → Option CoreStatus
  pub world : W

-- What the manager holds itself, without the world of DPDK.
abbrev pub Own : Type 0
Own = GlobalNfState × (Ptr → Option OnvmNf) × (Ptr → Option CoreStatus)

abbrev pub own : {W : Type 0} → System W → Own
own s = (s.global, s.nf_mem, s.core_mem)

abbrev pub update {ℓ} : {A : Type ℓ} → (Ptr → Option A) → Ptr → A → Ptr → Option A
update m p a q = if p == q then some a else m q

-- A write is read back, and the last of two writes stays.
pub update_self {ℓ} : {A : Type ℓ} (m : Ptr → Option A) (p : Ptr) (a : A) → update m p a p ≡ some a
update_self m p a = ground arith

pub update-update {ℓ} :
    {A : Type ℓ} (m : Ptr → Option A) (p : Ptr) (a b : A) → update (update m p a) p b ≡ update m p b
update-update m p a b = fun_ext λ q. ground arith

module _ {E W : Type 0} where
  abbrev pub load_nf : Ptr → Cmd E (System W) OnvmNf
  load_nf p s = deref (s.nf_mem p) s

  abbrev pub store_nf : Ptr → OnvmNf → Cmd E (System W) (Unit {0})
  store_nf p nf s = ok tt (record s { nf_mem = update s.nf_mem p nf })

  abbrev pub load_core : Ptr → Cmd E (System W) CoreStatus
  load_core p s = deref (s.core_mem p) s

  abbrev pub store_core : Ptr → CoreStatus → Cmd E (System W) (Unit {0})
  store_core p c s = ok tt (record s { core_mem = update s.core_mem p c })

  -- The pointers that the vectors of the global state hold.
  abbrev pub nf_at : ℕ → Cmd E (System W) Ptr
  nf_at i s = index_at s.global.nfs i s

  abbrev pub core_at : ℕ → Cmd E (System W) Ptr
  core_at i s = index_at s.global.cores i s

  -- A DPDK call that changes its world and returns nothing.
  abbrev pub effect : (W → W) → Cmd E (System W) (Unit {0})
  effect f s = ok tt (record s { world = f s.world })

  -- A DPDK call that also returns a value.
  abbrev pub call : {A : Type 0} → (W → A × W) → Cmd E (System W) A
  call f s = let (a, w) = f s.world in ok a (record s { world = w })
