-- ===== src/Mgr/Init/Startup/Options.antt =====
-- What `init` of onvm_mgr/src/mgr/init.rs makes of the manager's own options.
use rust_onvm_v.Base.{
  ℕ, ◌≡◌, ◌∙◌, ap, refl, List, Option, false, Run, Cmd, ok, err, panic, fault, exit, out_of_fuel,
  and_then, returns,
}
use rust_onvm_v.Mgr.Global.{default}
use rust_onvm_v.Mgr.System.{System}
use rust_onvm_v.Mgr.Args.{Matches}
use rust_onvm_v.Mgr.Init.Dpdk.{InitDpdk}
use rust_onvm_v.Mgr.Init.Port.{InitError}
use rust_onvm_v.Mgr.Init.Pools.{Sizes}
use rust_onvm_v.Mgr.Init.Zones.{init_zones}
use rust_onvm_v.Mgr.Init.Startup.{Text, Host, split_args, start_eal, finish, init}
use rust_onvm_v.Mgr.Init.Startup.Laws.{init_zones-returns}

module _ {E S A B : Type 0} where
  -- What follows a command that does not return makes no difference.
  lost_rest :
      (r : Run E S A) (k j : A → Cmd E S B) → returns r ≡ false → and_then r k ≡ and_then r j
  unfolding returns
  lost_rest (ok a s) k j h = cc
  lost_rest (err e s) k j h = refl
  lost_rest (panic p s) k j h = refl
  lost_rest (fault s) k j h = refl
  lost_rest (exit s) k j h = refl
  lost_rest (out_of_fuel s) k j h = refl

  same_rest :
      (r : Run E S A) (k j : A → Cmd E S B)
      → ((a : A) (s : S) → k a s ≡ j a s)
      → and_then r k ≡ and_then r j
  same_rest (ok a s) k j h = h a s
  same_rest (err e s) k j h = refl
  same_rest (panic p s) k j h = refl
  same_rest (fault s) k j h = refl
  same_rest (exit s) k j h = refl
  same_rest (out_of_fuel s) k j h = refl

-- A machine on which getopts and the number of ports are others.
abbrev pub other_options : {W : Type 0} → Host W → (List Text → Option Matches) → (W → ℕ) → Host W
other_options h getopts ports = record h { getopts = getopts; dev_count_avail = ports }

module _ {W : Type 0} (d : InitDpdk W) (z : Sizes) (h : Host W) where
  -- The manager's own options play no part: with the same arguments for DPDK, `init` does the same,
  -- whatever follows the `--`, whatever getopts makes of it, however many ports there are and
  -- whatever the fuel.
  pub init-options :
      (getopts : List Text → Option Matches) (ports : W → ℕ) (fuel fuel' : ℕ)
      (args args' : List Text) (s : System W)
      → (split_args args).0 ≡ (split_args args').0
      → init d z h fuel args s ≡ init d z (other_options h getopts ports) fuel' args' s
  unfolding init
  init-options getopts ports fuel fuel' args args' s same =
      ap (λ first. and_then (start_eal d z h first (record s { global = default })) before) same
      ∙ same_rest (start_eal d z h (split_args args').0 (record s { global = default })) before
          after
          (λ u t. lost_rest (init_zones d z h.num_cpus t) _ _ (init_zones-returns d z h.num_cpus t))
    where
      before : Unit {0} → Cmd InitError (System W) (Unit {0})
      before u t =
          and_then (init_zones d z h.num_cpus t)
            λ u. finish d z h fuel (h.dev_count_avail t.world) (split_args args).1

      after : Unit {0} → Cmd InitError (System W) (Unit {0})
      after u t =
          and_then (init_zones d z h.num_cpus t) λ u.
            finish d z (other_options h getopts ports) fuel' (ports t.world) (split_args args').1
