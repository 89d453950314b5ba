-- ===== src/Mgr/Init/Links.antt =====
-- `check_all_ports_link_status` of onvm_mgr/src/mgr/init.rs. What it prints is left out.
pub mod Laws
pub mod Bounds
use Prim.Native.Nat.{bit_and}
use rust_onvm_v.Base.{
  ℕ, zero, suc, ◌+◌, ◌-◌, ◌^◌, Option, ℤ, pos, eq_ℤ, Cmd, ok, panic, overflow, fail, skip, get,
  deref, index_at, ◌>>=◌, ◌>>◌, leb, ◌==◌, ◌&&◌, ◌||◌, not, if◌then◌else◌, Bool, true, false,
}
use rust_onvm_v.Nflib.Structs.Ports.{PortInfo}
use rust_onvm_v.Mgr.System.{System, call, effect}
use rust_onvm_v.Mgr.Init.Dpdk.{InitDpdk, Link, neg_enodev, neg_enotsup}
use rust_onvm_v.Mgr.Init.Port.{InitError, link_unsupported, bad_link_port}

abbrev pub check_interval : ℕ
check_interval = 100

abbrev pub max_check_time : ℕ
max_check_time = 90

module _ {W : Type 0} (d : InitDpdk W) (mask : ℕ) where
  abbrev Init : Type 0 → Type 0
  Init = Cmd InitError (System W)

  -- A port of a round; the result is whether the round breaks off here, with a link that is down.
  -- A round that prints goes on in any case. `1 << id` is a shift of an `i64`.
  unfoldable pub check_port : Bool → ℕ → Init Bool
  check_port print_flag i = do
    s ← get
    ports ← deref s.global.ports
    id ← index_at ports.id i
    (if leb 64 id then panic overflow else if bit_and mask (2 ^ id) == 0 then ok false else do
      (retval, link) ← call (d.link_get_nowait id)
      (if eq_ℤ retval neg_enotsup
          then fail link_unsupported
          else if eq_ℤ retval neg_enodev
          then fail bad_link_port
          else ok (not print_flag && (link.link_status == 0))))

  -- The ports of a round, of which `n` are left and the next is the `i`th; the result is
  -- `all_ports_up`.
  unfoldable pub check_ports : Bool → ℕ → ℕ → Init Bool
  unfolding check_port
  check_ports print_flag zero i = ok true
  check_ports print_flag (suc n) i = do
    down ← check_port print_flag i
    (if down then ok false else check_ports print_flag n (suc i))

  -- The rounds, of which `n` are left and the next is round `count`.
  unfoldable pub check_rounds : ℕ → ℕ → ℕ → Bool → Init (Unit {0})
  unfolding check_ports
  check_rounds port_num zero count print_flag = skip
  check_rounds port_num (suc n) count print_flag = do
    all_ports_up ← check_ports print_flag port_num 0
    (if print_flag then skip else do
      (if all_ports_up then skip else effect (d.delay_us_sleep check_interval))
      check_rounds port_num n (suc count) (not all_ports_up || (count == max_check_time - 1)))

  unfoldable pub check_all_ports_link_status : Init (Unit {0})
  unfolding check_rounds
  check_all_ports_link_status = do
    s ← get
    ports ← deref s.global.ports
    check_rounds ports.num_ports max_check_time 0 false
