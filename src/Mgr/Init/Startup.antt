-- ===== src/Mgr/Init/Startup.antt =====
-- `init` of onvm_mgr/src/mgr/init.rs, with its calls in order. What it prints is left out.
pub mod Laws
pub mod Ends
pub mod Options
pub mod Arguments
use rust_onvm_v.Base.{
  ℕ, zero, suc, List, [], ◌∷◌, Option, none, some, Run, Cmd, ok, err, panic, fault, exit,
  out_of_fuel, explicit, skip, get, deref, index_at, modify, ◌>>=◌, ◌>>◌, ◌==◌, ◌&&◌, if◌then◌else◌,
  Bool, true, false,
}
use rust_onvm_v.Nflib.Structs.Ports.{PortInfo, EtherAddr}
use rust_onvm_v.Mgr.Global.{GlobalNfState, default}
use rust_onvm_v.Mgr.System.{System, call}
use rust_onvm_v.Mgr.Args.{ArgError, no_arguments, Matches, parse_app_args}
use rust_onvm_v.Mgr.Init.Dpdk.{InitDpdk}
use rust_onvm_v.Mgr.Init.Port.{InitError, bad_arguments, init_port}
use rust_onvm_v.Mgr.Init.Links.{check_all_ports_link_status}
use rust_onvm_v.Mgr.Init.Pools.{Sizes, init_pools, init_info_queue}
use rust_onvm_v.Mgr.Init.Zones.{init_zones}

-- A text is the list of its bytes.
abbrev pub Text : Type 0
Text = List ℕ

unfoldable pub same_text : Text → Text → Bool
same_text [] [] = true
same_text (a ∷ xs) (b ∷ ys) = a == b && same_text xs ys
same_text [] (b ∷ ys) = false
same_text (a ∷ xs) [] = false

-- What stands before the first `--`, and what stands after it, if there is one.
unfoldable pub split_once : List Text → List Text × Option (List Text)
unfolding same_text
split_once [] = ([], none)
split_once (t ∷ ts) =
    let rest = split_once ts in
    if same_text t (b'-' ∷ b'-' ∷ []) then ([], some ts) else (t ∷ rest.0, rest.1)

-- The first two parts of `args.split(|elem| elem == "--")`; a missing second part is one empty text.
unfoldable pub split_args : List Text → List Text × List Text
unfolding split_once
split_args args = elim (split_once args).1 [
  | none ↦ ((split_once args).0, [] ∷ [])
  | some rest ↦ ((split_once args).0, (split_once rest).0)
]

-- Capsule's start and end of DPDK, which say whether they were successful, the number of ports,
-- and the results of num_cpus and of getopts.
pub record Host (W : Type 0) : Type 0 where
  pub eal_init : List Text → W → Bool × W
  pub eal_cleanup : W → Bool × W
  pub dev_count_avail : W → ℕ
  pub num_cpus : ℕ
  pub getopts : List Text → Option Matches

module _ {W : Type 0} where
  -- `?` on the result of `parse_app_args`.
  unfoldable pub lift_args :
      Run ArgError (System W) (Unit {0}) → Run InitError (System W) (Unit {0})
  lift_args (ok a s) = ok a s
  lift_args (err no_arguments s) = err bad_arguments s
  lift_args (panic p s) = panic p s
  lift_args (fault s) = fault s
  lift_args (exit s) = exit s
  lift_args (out_of_fuel s) = out_of_fuel s

module _ {W : Type 0} (d : InitDpdk W) (z : Sizes) (h : Host W) where
  abbrev pub Init : Type 0 → Type 0
  Init = Cmd InitError (System W)

  -- Without DPDK the manager panics only where the clean-up fails too.
  unfoldable pub start_eal : List Text → Init (Unit {0})
  start_eal args = do
    started ← call (h.eal_init args)
    (if started
        then skip
        else do cleaned ← call h.eal_cleanup; (if cleaned then skip else panic explicit))

  -- The ports, of which `n` are left and the next is the `i`th. The address that DPDK writes goes
  -- to a copy.
  unfoldable pub init_ports : ℕ → ℕ → Init (Unit {0})
  unfolding init_port
  init_ports zero i = skip
  init_ports (suc n) i = do
    s ← get
    ports ← deref s.global.ports
    port_id ← index_at ports.id i
    mac ← index_at ports.mac port_id
    call (d.macaddr_get port_id mac)
    init_port d port_id
    init_ports n (suc i)

  -- What follows the zones. The mask of the links is that of all 32 bits.
  unfoldable pub finish : ℕ → ℕ → List Text → Init (Unit {0})
  unfolding lift_args init_pools init_ports check_all_ports_link_status init_info_queue
  finish fuel total_ports args = do
    λ s. lift_args (parse_app_args fuel h.num_cpus total_ports (h.getopts args) s)
    init_pools d z
    s ← get
    ports ← deref s.global.ports
    init_ports ports.num_ports 0
    check_all_ports_link_status d 4294967295
    init_info_queue d z

  unfoldable pub init : ℕ → List Text → Init (Unit {0})
  unfolding split_args start_eal init_zones finish
  init fuel args = do
    modify (λ s. record s { global = default })
    start_eal (split_args args).0
    s ← get
    init_zones d z h.num_cpus
    finish fuel (h.dev_count_avail s.world) (split_args args).1
