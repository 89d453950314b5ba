-- ===== src/Mgr/Args/Cores/Loop.antt =====
-- The loop over the core mask, `parse_nf_cores` of onvm_mgr/src/mgr/get_args.rs.
use native.Mathlib.Decide.{ℕ_discrete}
use rust_onvm_v.Base.{
  ℕ, zero, suc, ◌+◌, ◌/◌, ◌%◌, ◌≤◌, ◌<◌, ◌≡◌, ◌≢◌, ◌∙◌, ap, refl, arith, some, ok, get_elem?,
  get_elem?_lt, length, ltb, ◌==◌, ◌&&◌, if◌then◌else◌, Cmd, Run,
}
use rust_onvm_v.Nflib.Structs.Packets.{Ptr}
use rust_onvm_v.Nflib.Structs.Ports.{CoreStatus}
use rust_onvm_v.Mgr.System.{System}
use rust_onvm_v.Mgr.Args.{ArgError, enable_core, coremask_loop}
use rust_onvm_v.Mgr.Args.Cores.{
  chosen, turned_on, HasCores, due_zero, due_now, due_first, Masked, Masked-quiet, Masked-unset,
  Masked-set, with_core, HasCores-with_core, enable_core_lem,
}

module _ {W : Type 0} where
  after_round : ℕ → ℕ → ℕ → ℕ → ℕ → Cmd ArgError (System W) ℕ
  after_round fuel max pm count num =
      if count + 1 == max then ok num else coremask_loop fuel max (pm / 2) (count + 1) num

  loop_unset :
      (fuel max pm count num : ℕ) (s : System W)
      → pm ≢ 0
      → pm % 2 ≢ 1
      → coremask_loop (suc fuel) max pm count num s ≡ after_round fuel max pm count num s
  unfolding coremask_loop after_round
  loop_unset fuel max pm count num s h odd = ground arith

  loop_set :
      (fuel max pm count num : ℕ) (s t : System W)
      → pm % 2 ≡ 1
      → count < max
      → enable_core count s ≡ ok tt t
      → coremask_loop (suc fuel) max pm count num s ≡ after_round fuel max pm count (num + 1) t
  unfolding coremask_loop after_round
  loop_set fuel max pm count num s t odd few on = ground arith

  -- The end of the loop in `t`, with `n` cores counted.
  abbrev Ends : Run ArgError (System W) ℕ → ℕ → ℕ → ℕ → System W → Type 0
  Ends r pm count max s = (n : ℕ) × (t : System W) × (r ≡ ok n t) × Masked pm count max s t

  Ends-done :
      (fuel max count num : ℕ) (s : System W)
      → Ends (coremask_loop (suc fuel) max 0 count num s) 0 count max s
  unfolding coremask_loop
  Ends-done fuel max count num s = (num, s, refl, Masked-quiet 0 count max s (due_zero count max))

  Ends-beyond :
      (fuel max pm count num : ℕ) (s : System W)
      → count + 1 ≡ max
      → Ends (after_round fuel max pm count num s) (pm / 2) (count + 1) max s
  unfolding after_round
  Ends-beyond fuel max pm count num s last =
      (num, s, ground arith, Masked-quiet (pm / 2) (count + 1) max s (λ i. ground arith))

  after_round_loop :
      (fuel max pm count num : ℕ) (s : System W)
      → count + 1 ≢ max
      → after_round fuel max pm count num s ≡ coremask_loop fuel max (pm / 2) (count + 1) num s
  unfolding after_round
  after_round_loop fuel max pm count num s more = ground arith

  Ends-unset :
      (fuel max pm count num : ℕ) (s : System W)
      → count < max
      → pm ≢ 0
      → pm % 2 ≢ 1
      → Ends (after_round fuel max pm count num s) (pm / 2) (count + 1) max s
      → Ends (coremask_loop (suc fuel) max pm count num s) pm count max s
  Ends-unset fuel max pm count num s few some_bit even (n, t, runs, masked) = (
    n,
    t,
    loop_unset fuel max pm count num s some_bit even ∙ runs,
    Masked-unset pm count max s t (due_now pm count max few ∙ ground arith) masked,
  )

  Ends-set :
      (fuel max pm count num : ℕ) (s : System W) (p : Ptr) (c : CoreStatus)
      → HasCores s
      → get_elem? s.global.cores count ≡ some p
      → s.core_mem p ≡ some c
      → count < max
      → pm % 2 ≡ 1
      → Ends
          (after_round fuel max pm count (num + 1) (with_core s p c))
          (pm / 2)
          (count + 1)
          max
          (with_core s p c)
      → Ends (coremask_loop (suc fuel) max pm count num s) pm count max s
  Ends-set fuel max pm count num s p c has slot here few odd (n, t, runs, masked) = (
    n,
    t,
    loop_set fuel max pm count num s (with_core s p c) odd few
          (enable_core_lem count p c s slot here)
        ∙ runs,
    Masked-set pm count max s t p c has slot here (due_now pm count max few ∙ ground arith) masked,
  )

  Ends-after :
      (fuel max pm count num : ℕ) (s : System W)
      → count < max
      → (count + 1 < max
          → Ends (coremask_loop fuel max (pm / 2) (count + 1) num s) (pm / 2) (count + 1) max s)
      → Ends (after_round fuel max pm count num s) (pm / 2) (count + 1) max s
  Ends-after fuel max pm count num s few rest = elim (ℕ_discrete (count + 1) max) [
    | yes last ↦ Ends-beyond fuel max pm count num s last
    | no more ↦
        let (n, t, runs, masked) = rest (omega arith) in
        (n, t, after_round_loop fuel max pm count num s more ∙ runs, masked)
  ]

  coremask_loop_lem :
      (fuel max pm count num : ℕ) (s : System W)
      → HasCores s
      → max ≤ length s.global.cores
      → count < max
      → pm < fuel
      → Ends (coremask_loop fuel max pm count num s) pm count max s
  coremask_loop_lem zero max pm count num s has room few enough = absurd (omega arith)
  coremask_loop_lem (suc fuel) max zero count num s has room few enough =
      Ends-done fuel max count num s
  coremask_loop_lem (suc fuel) max (suc pm) count num s has room few enough =
      elim (ℕ_discrete (suc pm % 2) 1) [
        | yes odd ↦
            let (p, slot) = get_elem?_lt s.global.cores count (omega arith) in
            let (c, here) = has.filled count p slot in
            Ends-set fuel max (suc pm) count num s p c has slot here few odd (
              Ends-after fuel max (suc pm) count (num + 1) (with_core s p c) few (λ more.
                coremask_loop_lem fuel max (suc pm / 2) (count + 1) (num + 1) (with_core s p c)
                  (HasCores-with_core s p c has) room more (omega arith)))
        | no even ↦
            Ends-unset fuel max (suc pm) count num s few (λ e. cc) even
              (Ends-after fuel max (suc pm) count num s few (λ more.
                coremask_loop_lem fuel max (suc pm / 2) (count + 1) num s has room more
                  (omega arith)))
      ]

  -- Where each of the manager's cores has a status of its own, the first `max_cores` slots among
  -- them and at least one, the loop over the core mask ends with fuel above the mask's value, and
  -- changes nothing but core statuses: each core below `max_cores` whose bit is set in the mask is
  -- then enabled with no NFs, and every other core is as it was.
  pub coremask_loop-chosen :
      (fuel max_cores pm : ℕ) (s : System W)
      → HasCores s
      → max_cores ≤ length s.global.cores
      → 0 < max_cores
      → pm < fuel
      → (n : ℕ) × (t : System W) × (coremask_loop fuel max_cores pm 0 0 s ≡ ok n t)
        × (t ≡ record s { core_mem = t.core_mem })
        × ((i : ℕ) (p : Ptr) (c : CoreStatus)
            → get_elem? s.global.cores i ≡ some p
            → s.core_mem p ≡ some c
            → t.core_mem p ≡ some (if ltb i max_cores && chosen pm i then turned_on c else c))
  coremask_loop-chosen fuel max_cores pm s has room some_core enough =
      let (n, t, runs, (rest, set)) =
        coremask_loop_lem fuel max_cores pm 0 0 s has room some_core enough in
      (
        n,
        t,
        runs,
        rest,
        λ i p c slot here.
            set i p c slot here
            ∙ ap (λ b. some (if b then turned_on c else c)) (due_first pm max_cores i),
      )
