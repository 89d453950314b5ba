-- ===== src/Mgr/Args/Numerals/Unsigned.antt =====
-- Unsigned numbers: which texts the standard library's `from_str_radix` reads, and as what.
use rust_onvm_v.Base.{
  ℕ, ◌≤◌, ◌<◌, ◌≡◌, ◌≢◌, ◌↔◌, inl, inr, ◌∙◌, sym, ap, refl, arith, List, [], ◌∷◌, some, ◌==◌,
  if◌then◌else◌, Bool, Bool-cases, true, false,
}
use rust_onvm_v.Mgr.Args.{digits_value, from_str_radix}
use rust_onvm_v.Mgr.Args.Numerals.{Reads, digits_value_iff, signed, plain, single}

module _ {ℓ κ} {A : Type 0} {P : Type ℓ} {Q : Type κ} where
  -- The same of an equal value, for an equivalent condition.
  pub via : {x y a : A} → x ≡ y → (y ≡ a) ↔ Q → Q ↔ P → (x ≡ a) ↔ P
  via e i j = (λ h. j.0 (i.0 (sym e ∙ h)), λ p. e ∙ i.1 (j.1 p))

swap_sides {ℓ κ} : {P : Type ℓ} {Q : Type κ} → P ↔ Q → Q ↔ P
swap_sides i = (i.1, i.0)

with_bound {ℓ κ} : {P : Type ℓ} {Q : Type κ} (B : Type 0) → P ↔ Q → (P × B) ↔ (Q × B)
with_bound B i = (λ h. (i.0 h.0, h.1), λ h. (i.1 h.0, h.1))

module _ (radix bound : ℕ) (base : 0 < radix) where
  one_byte : (c : ℕ) → from_str_radix radix bound (c ∷ []) ≡ digits_value radix bound 0 (c ∷ [])
  unfolding from_str_radix
  one_byte c = refl

  behind_sign :
      (c d : ℕ) (cs : List ℕ) (b : Bool)
      → (c == b'+') ≡ b
      → from_str_radix radix bound (c ∷ d ∷ cs) ≡ (
          if b
          then digits_value radix bound 0 (d ∷ cs)
          else digits_value radix bound 0 (c ∷ d ∷ cs))
  unfolding from_str_radix
  behind_sign c d cs b e =
      ap
        (λ b.
          if b
          then digits_value radix bound 0 (d ∷ cs)
          else digits_value radix bound 0 (c ∷ d ∷ cs))
        e

  pub no_bytes : (n : ℕ) → ¬ Reads radix [] n
  no_bytes n (inl (d, ds, spelt, e)) = spelt
  no_bytes n (inr (t, e, h)) = cc

  nothing : (n : ℕ) → from_str_radix radix bound [] ≢ some n
  unfolding from_str_radix
  nothing n h = cc

  -- An unsigned number is read from the texts that are one digit or more, behind a plus or not, of a
  -- number within the bound, and as that number.
  pub from_str_radix_iff :
      (cs : List ℕ) (n : ℕ)
      → (from_str_radix radix bound cs ≡ some n) ↔ (Reads radix cs n × (n ≤ bound))
  from_str_radix_iff [] n = (λ h. absurd (nothing n h), λ h. absurd (no_bytes n h.0))
  from_str_radix_iff (c ∷ []) n =
      via (one_byte c) (digits_value_iff radix bound base n c [])
        (with_bound (n ≤ bound) (swap_sides (single radix c n)))
  from_str_radix_iff (c ∷ d ∷ cs) n = elim (Bool-cases (c == b'+')) [
    | inl e ↦
        via (behind_sign c d cs true e) (digits_value_iff radix bound base n d cs)
          (with_bound (n ≤ bound) (swap_sides (signed radix c n (d ∷ cs) (ground arith))))
    | inr e ↦
        via (behind_sign c d cs false e) (digits_value_iff radix bound base n c (d ∷ cs))
          (with_bound (n ≤ bound) (swap_sides (plain radix c n (d ∷ cs) (ne e))))
  ]
    where
      ne : (c == b'+') ≡ false → c ≢ b'+'
      ne e same = ground arith
