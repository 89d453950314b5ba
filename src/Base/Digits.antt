-- ===== src/Base/Digits.antt =====
-- How an unsigned number is written: its digits as bytes, the highest first, in decimal as Rust
-- prints it, and in hexadecimal with small letters.
use Prim.Native.Nat.{ℕ, zero, suc, ◌+◌, ◌-◌, ◌*◌, ◌/◌, ◌%◌, ◌≤◌, ◌<◌}
use mathlib.Core.Path.{◌≡◌, refl, ap}
use mathlib.Core.List.{List, [], ◌∷◌, ◌++◌}
use native.Mathlib.Omega.{arith}
use mathlib.Core.Logic.{inl, inr}
use rust_onvm_v.Base.Tests.{ltb, Bool-cases, if◌then◌else◌}

abbrev pub digit : ℕ → ℕ
digit d = if ltb d 10 then b'0' + d else b'a' + (d - 10)

-- With fuel for the digits.
unfoldable pub print : ℕ → ℕ → ℕ → List ℕ
print radix zero n = []
print radix (suc fuel) n =
    let rest = print radix fuel (n / radix) in
    if ltb n radix then digit n ∷ [] else rest ++ (digit (n % radix) ∷ [])

-- A number has no more digits than its value and one.
unfoldable pub decimal : ℕ → List ℕ
unfolding print
decimal n = print 10 (suc n) n

unfoldable pub hexadecimal : ℕ → List ℕ
unfolding print
hexadecimal n = print 16 (suc n) n

-- What is used of a radix.
pub record IsRadix (radix : ℕ) : Type 0 where
  pub small : radix ≤ 36
  pub rebuilt : (n : ℕ) → n / radix * radix + n % radix ≡ n
  pub lower : (n : ℕ) → n % radix < radix
  pub shorter : (n : ℕ) → radix ≤ n → n / radix < n
  pub no_longer : (n : ℕ) → n / radix ≤ n

pub ten-IsRadix : IsRadix 10
ten-IsRadix = record {
  small = omega arith;
  rebuilt = λ n. omega arith;
  lower = λ n. omega arith;
  shorter = λ n h. omega arith;
  no_longer = λ n. omega arith;
}

pub sixteen-IsRadix : IsRadix 16
sixteen-IsRadix = record {
  small = omega arith;
  rebuilt = λ n. omega arith;
  lower = λ n. omega arith;
  shorter = λ n h. omega arith;
  no_longer = λ n. omega arith;
}

abbrev pub Starts : List ℕ → Type 0
Starts xs = (c : ℕ) × (cs : List ℕ) × (xs ≡ c ∷ cs) × (b'0' ≤ c)

-- More digits at the end leave the start.
Starts-append : (xs ys : List ℕ) → Starts xs → Starts (xs ++ ys)
Starts-append xs ys (c, cs, e, digit) = (c, cs ++ ys, ap (λ l. l ++ ys) e, digit)

digit_ge : (d : ℕ) → b'0' ≤ digit d
digit_ge d = ground arith

pub print-Starts :
    {radix : ℕ} → IsRadix radix → (fuel n : ℕ) → n < fuel → Starts (print radix fuel n)
unfolding print
print-Starts h zero n enough = absurd (omega arith)
print-Starts {radix} h (suc fuel) n enough = elim (Bool-cases (ltb n radix)) [
  | inl e ↦ rw e (digit n, [], refl, digit_ge n)
  | inr e ↦
      let less = h.shorter n (ground arith) in
      rw e (
        Starts-append (print radix fuel (n / radix)) _
          (print-Starts h fuel (n / radix) (omega (arith, less))))
]
