-- ===== src/Mgr/Init/Zones.antt =====
-- The memory zones of `init`, onvm_mgr/src/mgr/init.rs. The address of each zone is overwritten
-- with null before it is used, so that address 0 is what the vectors begin with.
pub mod Laws
pub mod Layout
use rust_onvm_v.Base.{
  ℕ, zero, suc, ◌+◌, ◌*◌, List, [], ◌∷◌, Option, none, some, Cmd, ok, panic, fault, exit,
  index_out_of_bounds, modify, get, deref, skip, ◌>>=◌, ◌>>◌, ltb, if◌then◌else◌, length, set,
}
use rust_onvm_v.Nflib.Constants.{max_nfs, max_services, max_nfs_per_service}
use rust_onvm_v.Nflib.Structs.Packets.{Ptr}
use rust_onvm_v.Mgr.Global.{GlobalNfState}
use rust_onvm_v.Mgr.System.{System, call}
use rust_onvm_v.Mgr.Init.Dpdk.{
  InitDpdk, ZoneName, mz_nf_info, mz_port_info, mz_cores_status, mz_services_info,
  mz_nf_per_service_info, mz_onvm_config,
}
use rust_onvm_v.Mgr.Init.Port.{InitError}
use rust_onvm_v.Mgr.Init.Pools.{Sizes, void_size, set_default_config}

-- `n` addresses from `addr` on, `sz` apart.
unfoldable pub pointers : ℕ → ℕ → Ptr → List Ptr
pointers zero sz addr = []
pointers (suc n) sz addr = addr ∷ pointers n sz (addr + sz)

module _ {W : Type 0} (d : InitDpdk W) where
  abbrev Init : Type 0 → Type 0
  Init = Cmd InitError (System W)

  -- A zone, or the exit where there is none.
  unfoldable pub reserve : ZoneName → ℕ → Init (Unit {0})
  reserve name size = do found ← call (d.memzone_reserve name size); (if found then skip else exit)

  -- The drop of an `Arc` that an assignment replaces. It counts down in front of the value, and the
  -- memory in front of a null pointer cannot be written. A value that is there is not seen again.
  unfoldable pub drop_old : {A : Type 0} → Option A → Init (Unit {0})
  drop_old old = do deref old; skip

  -- `for i in 0..MAX_SERVICES`: `n` rounds are left, the next is round `i`. The value is computed
  -- before the index.
  unfoldable pub service_nfs : ℕ → ℕ → Init (Unit {0})
  service_nfs zero i = skip
  service_nfs (suc n) i = do
    p ← call (d.calloc max_nfs_per_service void_size)
    s ← get
    (if ltb i (length s.global.services)
        then modify
            (λ s. record s { global = record (s.global) { services = set s.global.services i p } })
        else panic index_out_of_bounds)
    service_nfs n (suc i)

  module _ (z : Sizes) (cores : ℕ) where
    unfoldable pub nf_zone : Init (Unit {0})
    unfolding reserve pointers
    nf_zone = do
      reserve mz_nf_info (z.nf * max_nfs)
      modify (λ s. record s { global = record (s.global) { nfs = pointers max_nfs z.nf 0 } })

    unfoldable pub port_zone : Init (Unit {0})
    unfolding reserve drop_old
    port_zone = do
      reserve mz_port_info z.port_info
      s ← get
      drop_old s.global.ports
      modify (λ s. record s { global = record (s.global) { ports = none } })

    unfoldable pub core_zone : Init (Unit {0})
    unfolding reserve pointers
    core_zone = do
      reserve mz_cores_status (z.core_status * cores)
      modify
          (λ s. record s { global = record (s.global) { cores = pointers cores z.core_status 0 } })

    -- As many entries as there are cores, of which then the first 32 are written.
    unfoldable pub service_zone : Init (Unit {0})
    unfolding reserve pointers service_nfs
    service_zone = do
      reserve mz_services_info (z.core_status * max_services)
      modify
          (λ s. record s { global = record (s.global) { services = pointers cores void_size 0 } })
      service_nfs max_services 0

    -- `*(addr as *mut u32)`, where the address is null.
    unfoldable pub per_service_zone : Init (Unit {0})
    unfolding reserve
    per_service_zone = do reserve mz_nf_per_service_info void_size; fault

    unfoldable pub config_zone : Init (Unit {0})
    unfolding reserve drop_old set_default_config
    config_zone = do
      reserve mz_onvm_config z.configuration
      s ← get
      drop_old s.global.onvm_config
      modify (λ s. record s { global = record (s.global) { onvm_config = none } })
      set_default_config d z

    unfoldable pub init_zones : Init (Unit {0})
    unfolding nf_zone port_zone core_zone service_zone per_service_zone config_zone
    init_zones = do nf_zone; port_zone; core_zone; service_zone; per_service_zone; config_zone
