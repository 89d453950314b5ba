-- ===== src/Mgr/Init/Startup/Ends.antt =====
-- How `init` of onvm_mgr/src/mgr/init.rs ends.
use mathlib.Core.Path.{subst}
use rust_onvm_v.Base.{
  ℕ, ◌<◌, ◌≡◌, ◌∙◌, ap, refl, arith, List, Bool, true, ok, panic, final, Run, explicit, bind_ok,
  bind_panic, and_then, Cmd, sym, ◌||◌, if◌then◌else◌, Bool-cases, inl, inr,
}
use rust_onvm_v.Nflib.Constants.{max_nfs}
use rust_onvm_v.Mgr.Global.{default}
use rust_onvm_v.Mgr.System.{System}
use rust_onvm_v.Mgr.Init.Dpdk.{InitDpdk}
use rust_onvm_v.Mgr.Init.Port.{InitError}
use rust_onvm_v.Mgr.Init.Pools.{Sizes}
use rust_onvm_v.Mgr.Init.Zones.Laws.{
  first, second, zones_end, zones_end-lost, zones_end-slots, init_zones_lem,
}
use rust_onvm_v.Mgr.Init.Zones.Layout.{IsLaidOut, pointers-IsLaidOut}
use rust_onvm_v.Mgr.Init.Startup.{Text, Host, split_args, start_eal, finish, init}

module _ {W : Type 0} (h : Host W) where
  -- DPDK was started, or cleaned up where it could not be.
  abbrev pub goes_on : List Text → W → Bool
  goes_on args w = (h.eal_init args w).0 || (h.eal_cleanup (h.eal_init args w).1).0

  -- The world after that.
  abbrev pub booted : List Text → W → W
  booted args w =
      if (h.eal_init args w).0
      then (h.eal_init args w).1
      else (h.eal_cleanup (h.eal_init args w).1).1

module _ {W : Type 0} (d : InitDpdk W) (z : Sizes) (h : Host W) where
  -- The manager as it is once DPDK was started or could not be, with the global state's defaults.
  abbrev pub reset : List Text → System W → System W
  reset args s = record s { global = default; world = booted h args s.world }

  -- The end of `init`, by whether the start of DPDK lets it go on.
  abbrev pub ending : Bool → System W → Run InitError (System W) (Unit {0})
  ending alive t =
      if alive
      then zones_end d z (first d z t.world).0 (second d z t.world).0 t
      else panic explicit t

  start_eal_lem :
      (args : List Text) (s : System W)
      → start_eal d z h args (record s { global = default })
        ≡ (if goes_on h args s.world then ok tt (reset args s) else panic explicit (reset args s))
  unfolding start_eal
  start_eal_lem args s = elim (Bool-cases (h.eal_init args s.world).0) [
    | inl started ↦ ground arith
    | inr failed ↦ ground arith
  ]

  -- `init` panics of itself where DPDK can be neither started nor cleaned up, and exits where one of
  -- the first two memory zones cannot be had. In all other cases it ends at the assignment of the
  -- ports, which writes in front of a null pointer: the slots of the NFs are set up then, and all
  -- else in the global state is as `Default` has it, whatever the arguments and the fuel.
  pub init_lem :
      (fuel : ℕ) (args : List Text) (s : System W)
      → init d z h fuel args s
        ≡ ending (goes_on h (split_args args).0 s.world) (reset (split_args args).0 s)
  unfolding init
  init_lem fuel args s =
      let own_args = (split_args args).0 in
      let rest : Unit {0} → Cmd InitError (System W) (Unit {0}) = λ u.
        finish d z h fuel (h.dev_count_avail (booted h own_args s.world)) (split_args args).1 in
      elim (Bool-cases (goes_on h own_args s.world)) [
        | inl alive ↦
            bind_ok {a = tt} {t = reset own_args s} _ (start_eal_lem own_args s ∙ rw alive refl)
            ∙ ap (λ r. and_then r rest) (init_zones_lem d z h.num_cpus (reset own_args s) refl)
            ∙ zones_end-lost d z _ _ (reset own_args s) rest
            ∙ rw alive refl
        | inr dead ↦
            bind_panic {p = explicit} {t = reset own_args s} _
              (start_eal_lem own_args s ∙ rw dead refl)
            ∙ rw dead refl
      ]

  -- Wherever `init` gets past the first memory zone, and NFs have a size, the slots that it leaves
  -- are laid out: there are 128 of them, no two lead to the same address, and each lies one size
  -- behind the one before it, the first at address 0.
  pub init-IsLaidOut :
      (fuel : ℕ) (args : List Text) (s : System W)
      → 0 < z.nf
      → goes_on h (split_args args).0 s.world ≡ true
      → (first d z (booted h (split_args args).0 s.world)).0 ≡ true
      → IsLaidOut max_nfs z.nf (final (init d z h fuel args s)).global.nfs
  init-IsLaidOut fuel args s some_size alive got =
      let t = reset (split_args args).0 s in
      subst (IsLaidOut max_nfs z.nf)
        (sym (
          ap (λ (r : Run InitError (System W) (Unit {0})). (final r).global.nfs)
            (init_lem fuel args s)
          ∙ rw (alive, got) (zones_end-slots d z (second d z t.world).0 t)))
        (pointers-IsLaidOut max_nfs z.nf some_size)
