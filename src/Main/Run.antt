-- ===== src/Main/Run.antt =====
-- `main_run` of onvm_mgr/src/lib.rs, and the program onvm_mgr_test/src/main.rs.
use rust_onvm_v.Base.{
  ℕ, List, ◌≡◌, false, returns, Run, Cmd, ok, err, panic, fault, exit, out_of_fuel,
}
use rust_onvm_v.Mgr.System.{System}
use rust_onvm_v.Mgr.Init.Dpdk.{InitDpdk}
use rust_onvm_v.Mgr.Init.Pools.{Sizes}
use rust_onvm_v.Mgr.Init.Port.{InitError}
use rust_onvm_v.Mgr.Init.Startup.{Host, Text, init}
use rust_onvm_v.Mgr.Init.Startup.Laws.{init-returns}

-- What the program prints about the start.
pub data Report : Type 0 where
  successfully_init : Report
  init_failed : InitError → Report

module _ {W : Type 0} where
  -- The result of `init` is dropped.
  unfoldable pub ignored : Run InitError (System W) (Unit {0}) → Run ⊥ (System W) (Unit {0})
  ignored (ok a s) = ok tt s
  ignored (err e s) = ok tt s
  ignored (panic p s) = panic p s
  ignored (fault s) = fault s
  ignored (exit s) = exit s
  ignored (out_of_fuel s) = out_of_fuel s

  unfoldable pub reported : Run InitError (System W) (Unit {0}) → Run ⊥ (System W) Report
  reported (ok a s) = ok successfully_init s
  reported (err e s) = ok (init_failed e) s
  reported (panic p s) = panic p s
  reported (fault s) = fault s
  reported (exit s) = exit s
  reported (out_of_fuel s) = out_of_fuel s

module _ {W : Type 0} (d : InitDpdk W) (z : Sizes) (h : Host W) where
  unfoldable pub main_run : ℕ → List Text → Cmd ⊥ (System W) (Unit {0})
  unfolding ignored init
  main_run fuel args s = ignored (init d z h fuel args s)

  -- `main` of the test program.
  unfoldable pub main : ℕ → List Text → Cmd ⊥ (System W) Report
  unfolding reported init
  main fuel args s = reported (init d z h fuel args s)

  ignored-returns :
      (r : Run InitError (System W) (Unit {0})) → returns r ≡ false → returns (ignored r) ≡ false
  unfolding returns ignored
  ignored-returns (ok a s) e = e
  ignored-returns (err x s) e = e
  ignored-returns (panic p s) e = e
  ignored-returns (fault s) e = e
  ignored-returns (exit s) e = e
  ignored-returns (out_of_fuel s) e = e

  reported-returns :
      (r : Run InitError (System W) (Unit {0})) → returns r ≡ false → returns (reported r) ≡ false
  unfolding returns reported
  reported-returns (ok a s) e = e
  reported-returns (err x s) e = e
  reported-returns (panic p s) e = e
  reported-returns (fault s) e = e
  reported-returns (exit s) e = e
  reported-returns (out_of_fuel s) e = e

  -- Whatever the machine, its DPDK, the arguments and the fuel, `init` returns neither `Ok` nor an
  -- error: so `main_run` does not return, and the test program reports neither success nor failure.
  pub main_never_returns :
      (fuel : ℕ) (args : List Text) (s : System W)
      → (returns (init d z h fuel args s) ≡ false)
        × (returns (main_run fuel args s) ≡ false)
        × (returns (main fuel args s) ≡ false)
  unfolding main_run main
  main_never_returns fuel args s =
      let lost = init-returns d z h fuel args s in
      (lost, ignored-returns _ lost, reported-returns _ lost)
