-- ===== src/Mgr/Args/Cores/Counted.antt =====
-- How many cores the loop over the core mask counts, in `parse_nf_cores` of
-- onvm_mgr/src/mgr/get_args.rs.
use rust_onvm_v.Base.{
  ℕ, zero, suc, ◌+◌, ◌/◌, ◌%◌, ◌≤◌, ◌<◌, ◌≡◌, ◌∙◌, sym, ap, arith, ok, false, not, and_then,
  and_then_ok, leb, ◌==◌, if◌then◌else◌, ◌>>◌, Cmd, Run, Bool-cases, inl, inr,
}
use rust_onvm_v.Mgr.System.{System}
use rust_onvm_v.Mgr.Args.{ArgError, enable_core, coremask_loop}

not_zero : (pm : ℕ) → pm % 2 ≡ 1 → (pm == 0) ≡ false
not_zero pm odd = ground arith

module _ {W : Type 0} where
  enabled_count :
      (r : Run ArgError (System W) (Unit {0})) (num a : ℕ) (t : System W)
      → and_then r (λ _. ok (num + 1)) ≡ ok a t
      → num < a
  enabled_count r num a t h =
      let (u, s, e, h1) = and_then_ok r (λ _. ok (num + 1)) h in ground arith

  -- The first half of a round.
  abbrev tried : ℕ → ℕ → ℕ → ℕ → Cmd ArgError (System W) ℕ
  tried max pm count num =
      if not (pm % 2 == 1)
      then ok num
      else if leb max count
      then ok num
      else enable_core count >> ok (num + 1)

  tried_count :
      (max pm count num a : ℕ) (s t : System W) → tried max pm count num s ≡ ok a t → num ≤ a
  tried_count max pm count num a s t h = ground (arith, enabled_count (enable_core count s) num a t)

  tried_count_set :
      (max pm count num a : ℕ) (s t : System W)
      → pm % 2 ≡ 1
      → count < max
      → tried max pm count num s ≡ ok a t
      → num < a
  tried_count_set max pm count num a s t odd few h =
      ground (arith, enabled_count (enable_core count s) num a t)

  abbrev next_round : ℕ → ℕ → ℕ → ℕ → ℕ → Cmd ArgError (System W) ℕ
  next_round fuel max pm count num =
      if count + 1 == max then ok num else coremask_loop fuel max (pm / 2) (count + 1) num

  -- A round that ends has two halves.
  halves :
      (fuel max pm count num n : ℕ) (s t : System W)
      → (pm == 0) ≡ false
      → coremask_loop (suc fuel) max pm count num s ≡ ok n t
      → (a : ℕ) × (s1 : System W) × (tried max pm count num s ≡ ok a s1)
        × (next_round fuel max pm count a s1 ≡ ok n t)
  unfolding coremask_loop
  halves fuel max pm count num n s t some_bit h =
      and_then_ok (tried max pm count num s) (next_round fuel max pm count)
        (sym (ap (λ b. (if b then ok num else round) s) some_bit) ∙ h)
    where
      round : Cmd ArgError (System W) ℕ
      round s = and_then (tried max pm count num s) (next_round fuel max pm count)

  next_count :
      (fuel max pm count a n : ℕ) (s t : System W)
      → (coremask_loop fuel max (pm / 2) (count + 1) a s ≡ ok n t → a ≤ n)
      → next_round fuel max pm count a s ≡ ok n t
      → a ≤ n
  next_count fuel max pm count a n s t rest h = elim (Bool-cases (count + 1 == max)) [
    | inl last ↦ ground arith
    | inr more ↦ rest (rw more at h)
  ]

  loop_count :
      (fuel max pm count num n : ℕ) (s t : System W)
      → coremask_loop fuel max pm count num s ≡ ok n t
      → num ≤ n
  unfolding coremask_loop
  loop_count zero max pm count num n s t h = cc
  loop_count (suc fuel) max pm count num n s t h = elim (Bool-cases (pm == 0)) [
    | inl none_left ↦ ground arith
    | inr some_left ↦
        let (a, s1, e1, h1) = halves fuel max pm count num n s t some_left h in
        let rest =
          next_count fuel max pm count a n s1 t (loop_count fuel max (pm / 2) (count + 1) a n s1 t)
            h1 in
        omega (arith, rest, tried_count max pm count num a s s1 e1)
  ]

  -- A core whose bit is read is counted.
  pub loop_count_set :
      (fuel max pm count num n : ℕ) (s t : System W)
      → pm % 2 ≡ 1
      → count < max
      → coremask_loop fuel max pm count num s ≡ ok n t
      → num < n
  unfolding coremask_loop
  loop_count_set zero max pm count num n s t odd few h = cc
  loop_count_set (suc fuel) max pm count num n s t odd few h =
      let (a, s1, e1, h1) = halves fuel max pm count num n s t (not_zero pm odd) h in
      let rest =
        next_count fuel max pm count a n s1 t (loop_count fuel max (pm / 2) (count + 1) a n s1 t)
          h1 in
      omega (arith, rest, tried_count_set max pm count num a s s1 odd few e1)
