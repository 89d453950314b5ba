-- ===== src/Mgr/Args/Forms.antt =====
-- What the values of the manager's options, onvm_mgr/src/mgr/get_args.rs, have to be.
use rust_onvm_v.Base.{
  ℕ, zero, suc, ◌≤◌, ◌≡◌, inl, inr, ◌∙◌, refl, arith, List, Option, none, some, pos, decimal,
  hexadecimal, ◌-◌, ◌^◌, leb, Bool-cases, false,
}
use rust_onvm_v.Mgr.Args.Numbers.{if_fits, from_str_radix-decimal}
use rust_onvm_v.Mgr.Args.Numerals.{Reads}
use rust_onvm_v.Mgr.Args.Numerals.Unsigned.{from_str_radix_iff}
use rust_onvm_v.Mgr.Args.Numerals.Signed.{ReadsInt, from_str_radix_i64_iff, minus}
use rust_onvm_v.Mgr.Args.Ports.{ones}
use rust_onvm_v.Mgr.Args.Whole.{ones_mono, reads_ones}

-- An option is not given, or its value meets a condition.
abbrev pub Given : (List ℕ → Type 0) → Option (List ℕ) → Type 0
Given P none = Unit
Given P (some t) = P t

-- A text is a number that fits in a byte, in decimal.
abbrev pub IsByte : List ℕ → Type 0
IsByte t = (n : ℕ) × Reads 10 t n × (n ≤ 255)

-- A text is the mask of some of the lowest ports, in hexadecimal.
abbrev pub IsLowMask : List ℕ → Type 0
IsLowMask t = (k : ℕ) × ReadsInt 16 t (pos (ones k))

same_pos : (a b : ℕ) → pos a ≡ pos b → a ≡ b
same_pos a b e = cc

below_zero : (a n : ℕ) → pos a ≡ minus n → a ≡ 0
below_zero a zero e = same_pos a 0 e
below_zero a (suc n) e = cc

ones_64 : ones 64 ≡ 2 ^ 64 - 1
unfolding ones
ones_64 = refl

low_ones : (k n : ℕ) → ones k ≡ n → n ≤ 2 ^ 63 - 1 → k ≤ 63
low_ones k n e low = elim (Bool-cases (leb k 63)) [
  | inl h ↦ ground arith
  | inr h ↦ absurd (omega (arith, e, low, ones_64, ones_mono 64 k (above k h)))
]
  where
    above : (k : ℕ) → leb k 63 ≡ false → 64 ≤ k
    above k h = ground arith

-- A mask that an `i64` can stand for has at most 63 ports.
pub few_ports : (k : ℕ) (t : List ℕ) → ReadsInt 16 t (pos (ones k)) → k ≤ 63
few_ports k t (inl (n, r, low, v)) = low_ones k n (same_pos (ones k) n v) low
few_ports k t (inr (n, u, e, ds, low, v)) = low_ones k 0 (below_zero (ones k) n v) (omega arith)

-- What is printed is accepted: a byte in decimal, and a mask of at most 63 ports in hexadecimal.
pub IsByte-decimal : (n : ℕ) → n ≤ 255 → IsByte (decimal n)
IsByte-decimal n small =
    let (reads, low) =
      (from_str_radix_iff 10 255 (omega arith) (decimal n) n).0
        (from_str_radix-decimal 255 n ∙ fits n small) in
    (n, reads, low)
  where
    fits : (n : ℕ) → n ≤ 255 → if_fits 255 n ≡ some n
    fits n h = ground arith

pub IsLowMask-hexadecimal : (k : ℕ) → k ≤ 63 → IsLowMask (hexadecimal (ones k))
IsLowMask-hexadecimal k few = (
  k,
  (from_str_radix_i64_iff 16 (omega arith) (hexadecimal (ones k)) (pos (ones k))).0
      (reads_ones k few),
)
