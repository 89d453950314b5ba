-- ===== src/Mgr/Nf/Start.antt =====
-- Instance ids and the start of an NF: `onvm_nf_next_instance_id`, `onvm_nf_start` and
-- `onvm_nf_ready` of onvm_mgr/src/mgr/net_funcs.rs.
pub mod Laws
use rust_onvm_v.Base.{
  ℕ, zero, suc, Option, Cmd, ok, err, out_of_fuel, ◌>>=◌, ◌>>◌, fail, skip, modify, deref, index_at,
  ltb, leb, ◌==◌, not, if◌then◌else◌, Bool,
}
use rust_onvm_v.Nflib.Constants.{
  max_nfs, max_nfs_per_service, nf_waiting_for_id, nf_service_max, nf_service_count_max,
  nf_id_conflict,
}
use rust_onvm_v.Nflib.Structs.Packets.{Ptr}
use rust_onvm_v.Nflib.Structs.Nf.{OnvmNf, OnvmNfInitCfg}
use rust_onvm_v.Nflib.Macros.{onvm_nf_is_valid}
use rust_onvm_v.Mgr.System.{System}

-- The messages of `exit_on_failure` in net_funcs.rs.
pub data NfError : Type 0 where
  waiting_for_id service_max service_count_max id_conflict not_running no_info_pool : NfError

-- `NXT_INSTANCE_ID` is a `const`: each mention of it makes a new cell that holds 1, and what is
-- added to such a cell is lost with it.
abbrev pub nxt_instance_id : ℕ
nxt_instance_id = 1

module _ {S W : Type 0} (sys : System W) where
  -- The `while` loop, with fuel. The global state is read and not changed.
  unfoldable pub id_loop : ℕ → Cmd NfError S ℕ
  unfolding onvm_nf_is_valid
  id_loop zero = out_of_fuel
  id_loop (suc fuel) =
      let again = id_loop fuel in
      if ltb nxt_instance_id max_nfs
      then (do
        let instance_id = nxt_instance_id
        p ← index_at sys.global.nfs instance_id
        nf ← deref (sys.nf_mem p)
        if onvm_nf_is_valid nf then ok instance_id else again)
      else ok max_nfs

  unfoldable pub onvm_nf_next_instance_id : ℕ → Cmd NfError S ℕ
  unfolding id_loop
  onvm_nf_next_instance_id fuel =
      if leb max_nfs sys.global.num_nfs then ok max_nfs else id_loop fuel

abbrev pub set_status : ℕ → Cmd NfError OnvmNfInitCfg (Unit {0})
set_status status = modify (λ cfg. record cfg { status = status })

module _ {W : Type 0} (sys : System W) where
  -- The tests that follow the choice of an id.
  unfoldable pub start_with_id : ℕ → Ptr → ℕ → Cmd NfError OnvmNfInitCfg (Unit {0})
  unfolding onvm_nf_is_valid
  start_with_id nf_id spawned_nf service_id =
      if leb max_nfs nf_id then set_status nf_service_max >> fail service_max else (do
        n ← index_at sys.global.nf_per_service_count service_id
        if leb max_nfs_per_service n
            then set_status nf_service_count_max
              >> set_status nf_service_max
              >> fail service_count_max
            else (do
              nf ← deref (sys.nf_mem spawned_nf)
              if onvm_nf_is_valid nf
                  then set_status nf_id_conflict >> fail id_conflict
                  else modify (λ cfg. record cfg { instance_id = nf_id })))

  -- The configuration is the state of the command: the manager's own state does not change.
  unfoldable pub onvm_nf_start : ℕ → Cmd NfError OnvmNfInitCfg (Unit {0})
  unfolding onvm_nf_next_instance_id start_with_id
  onvm_nf_start fuel cfg =
      if not (cfg.service_id == nf_waiting_for_id)
      then err waiting_for_id cfg
      else (do
        nf_id ← onvm_nf_next_instance_id sys fuel
        spawned_nf ← index_at sys.global.nfs nf_id
        start_with_id nf_id spawned_nf cfg.service_id)
          cfg

module _ {W : Type 0} where
  unfoldable pub onvm_nf_ready : Ptr → Cmd NfError (System W) (Unit {0})
  onvm_nf_ready ready = skip
