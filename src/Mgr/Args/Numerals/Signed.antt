-- ===== src/Mgr/Args/Numerals/Signed.antt =====
-- Signed numbers of 64 bits: which texts `i64::from_str_radix` reads, and as what.
use mathlib.Core.Path.{subst}
use rust_onvm_v.Base.{
  ℕ, zero, suc, ◌-◌, ◌^◌, ◌≤◌, ◌<◌, ◌≡◌, ◌≢◌, ◌↔◌, ◌⊎◌, inl, inr, ◌∙◌, sym, ap, refl, arith, List,
  [], ◌∷◌, Option, none, some, ℤ, pos, negsuc, ◌==◌, if◌then◌else◌, Bool, Bool-cases, true, false,
}
use rust_onvm_v.Mgr.Args.{digits_value, from_str_radix_i64, as_positive, negated}
use rust_onvm_v.Mgr.Args.Numerals.{
  IsDigit, Spells, Digits, Reads, digits_value_iff, signed, plain, single, tail_eq,
}
use rust_onvm_v.Mgr.Args.Numerals.Unsigned.{via, no_bytes}

abbrev pub minus : ℕ → ℤ
minus zero = pos 0
minus (suc n) = negsuc n

-- A signed number of 64 bits: digits behind a plus or not, or behind a minus.
abbrev pub ReadsInt : (radix : ℕ) (cs : List ℕ) (z : ℤ) → Type 0
ReadsInt radix cs z =
    ((n : ℕ) × Reads radix cs n × (n ≤ 2 ^ 63 - 1) × (z ≡ pos n))
    ⊎ ((n : ℕ) × (t : List ℕ) × (cs ≡ b'-' ∷ t) × Digits radix t n × (n ≤ 2 ^ 63) × (z ≡ minus n))

as_positive_iff :
    (o : Option ℕ) (z : ℤ) → (as_positive o ≡ some z) ↔ ((n : ℕ) × (o ≡ some n) × (z ≡ pos n))
as_positive_iff none z = (λ h. cc, λ (n, e, h). cc)
as_positive_iff (some a) z = (λ h. (a, refl, cc), λ (n, e, h). cc)

negated-some : (n : ℕ) → negated (some n) ≡ some (minus n)
negated-some zero = refl
negated-some (suc n) = refl

negated_iff :
    (o : Option ℕ) (z : ℤ) → (negated o ≡ some z) ↔ ((n : ℕ) × (o ≡ some n) × (z ≡ minus n))
negated_iff none z = (λ h. cc, λ (n, e, h). cc)
negated_iff (some zero) z =
    (λ h. (0, refl, cc), λ (n, e, h). ap negated e ∙ negated-some n ∙ ap some (sym h))
negated_iff (some (suc a)) z =
    (λ h. (suc a, refl, cc), λ (n, e, h). ap negated e ∙ negated-some n ∙ ap some (sym h))

not_minus : (radix c d : ℕ) → IsDigit radix c d → c ≢ b'-'
not_minus radix c d (low, inl (e, h)) same = omega arith
not_minus radix c d (low, inr (h1, h2, inl e)) same = omega arith
not_minus radix c d (low, inr (h1, h2, inr e)) same = omega arith

-- A text of digits, and a text that is a number as the first of the two kinds.
abbrev Unsigned : (radix : ℕ) (cs : List ℕ) (z : ℤ) → Type 0
Unsigned radix cs z = (n : ℕ) × Digits radix cs n × (n ≤ 2 ^ 63 - 1) × (z ≡ pos n)

abbrev Negative : (radix : ℕ) (cs : List ℕ) (z : ℤ) → Type 0
Negative radix cs z = (n : ℕ) × Digits radix cs n × (n ≤ 2 ^ 63) × (z ≡ minus n)

module _ (radix : ℕ) (base : 0 < radix) where
  Unsigned-iff :
      (c : ℕ) (cs : List ℕ) (z : ℤ)
      → (as_positive (digits_value radix (2 ^ 63 - 1) 0 (c ∷ cs)) ≡ some z)
        ↔ Unsigned radix (c ∷ cs) z
  Unsigned-iff c cs z =
      let value = as_positive_iff (digits_value radix (2 ^ 63 - 1) 0 (c ∷ cs)) z in
      let read = λ (n : ℕ). digits_value_iff radix (2 ^ 63 - 1) base n c cs in
      (
        λ h. let (n, e, v) = value.0 h in let (ds, low) = (read n).0 e in (n, ds, low, v),
        λ (n, ds, low, v). value.1 (n, (read n).1 (ds, low), v),
      )

  Negative-iff :
      (c : ℕ) (cs : List ℕ) (z : ℤ)
      → (negated (digits_value radix (2 ^ 63) 0 (c ∷ cs)) ≡ some z) ↔ Negative radix (c ∷ cs) z
  Negative-iff c cs z =
      let value = negated_iff (digits_value radix (2 ^ 63) 0 (c ∷ cs)) z in
      let read = λ (n : ℕ). digits_value_iff radix (2 ^ 63) base n c cs in
      (
        λ h. let (n, e, v) = value.0 h in let (ds, low) = (read n).0 e in (n, ds, low, v),
        λ (n, ds, low, v). value.1 (n, (read n).1 (ds, low), v),
      )

  int_one_byte :
      (c : ℕ)
      → from_str_radix_i64 radix (c ∷ []) ≡ as_positive (digits_value radix (2 ^ 63 - 1) 0 (c ∷ []))
  unfolding from_str_radix_i64
  int_one_byte c = refl

  int_behind_sign :
      (c d : ℕ) (cs : List ℕ) (plus below : Bool)
      → (c == b'+') ≡ plus
      → (c == b'-') ≡ below
      → from_str_radix_i64 radix (c ∷ d ∷ cs) ≡ (
          if plus
          then as_positive (digits_value radix (2 ^ 63 - 1) 0 (d ∷ cs))
          else if below
          then negated (digits_value radix (2 ^ 63) 0 (d ∷ cs))
          else as_positive (digits_value radix (2 ^ 63 - 1) 0 (c ∷ d ∷ cs)))
  unfolding from_str_radix_i64
  int_behind_sign c d cs plus below e1 e2 =
      ap
        (λ b.
          if b
          then as_positive (digits_value radix (2 ^ 63 - 1) 0 (d ∷ cs))
          else if c == b'-'
          then negated (digits_value radix (2 ^ 63) 0 (d ∷ cs))
          else as_positive (digits_value radix (2 ^ 63 - 1) 0 (c ∷ d ∷ cs)))
        e1
      ∙ ap
          (λ b.
            if plus
            then as_positive (digits_value radix (2 ^ 63 - 1) 0 (d ∷ cs))
            else if b
            then negated (digits_value radix (2 ^ 63) 0 (d ∷ cs))
            else as_positive (digits_value radix (2 ^ 63 - 1) 0 (c ∷ d ∷ cs)))
          e2

  int_nothing : (z : ℤ) → from_str_radix_i64 radix [] ≢ some z
  unfolding from_str_radix_i64
  int_nothing z h = cc

  int_no_bytes : (z : ℤ) → ¬ ReadsInt radix [] z
  int_no_bytes z (inl (n, r, low, v)) = no_bytes radix 0 base n r
  int_no_bytes z (inr (n, t, e, ds, low, v)) = cc

  -- Without a minus a number is read as an unsigned one is.
  no_minus :
      (c : ℕ) (cs ts : List ℕ) (z : ℤ)
      → ((n : ℕ) → Reads radix (c ∷ cs) n ↔ Digits radix ts n)
      → c ≢ b'-'
      → Unsigned radix ts z ↔ ReadsInt radix (c ∷ cs) z
  no_minus c cs ts z i ne = (λ (n, ds, low, v). inl (n, (i n).1 ds, low, v), back)
    where
      back : ReadsInt radix (c ∷ cs) z → Unsigned radix ts z
      back (inl (n, r, low, v)) = (n, (i n).0 r, low, v)
      back (inr (n, t, e, ds, low, v)) = absurd (ne (tail_eq c b'-' cs t e).0)

  no_lone_minus : (c : ℕ) (z : ℤ) → Unsigned radix (c ∷ []) z ↔ ReadsInt radix (c ∷ []) z
  no_lone_minus c z = (λ (n, ds, low, v). inl (n, inl ds, low, v), back)
    where
      back : ReadsInt radix (c ∷ []) z → Unsigned radix (c ∷ []) z
      back (inl (n, r, low, v)) = (n, (single radix c n).0 r, low, v)
      back (inr (n, t, e, (d, ds, spelt, sum), low, v)) =
          absurd (subst (λ t. Spells radix t (d ∷ ds)) (sym (tail_eq c b'-' [] t e).1) spelt)

  with_minus :
      (c : ℕ) (cs : List ℕ) (z : ℤ) → c ≡ b'-' → Negative radix cs z ↔ ReadsInt radix (c ∷ cs) z
  with_minus c cs z is = (λ (n, ds, low, v). inr (n, cs, ap (λ a. a ∷ cs) is, ds, low, v), back)
    where
      back : ReadsInt radix (c ∷ cs) z → Negative radix cs z
      back (inl (n, inl (d, ds, (digit, spelt), sum), low, v)) =
          absurd (not_minus radix c d digit is)
      back (inl (n, inr (t, e, ds), low, v)) = absurd (minus_ne_plus (tail_eq c b'+' cs t e).0)
        where
          minus_ne_plus : c ≡ b'+' → ⊥
          minus_ne_plus same = omega arith
      back (inr (n, t, e, ds, low, v)) =
          (n, subst (λ t. Digits radix t n) (sym (tail_eq c b'-' cs t e).1) ds, low, v)

  -- A signed number of 64 bits is read from the texts that are one, with one sign or none, and as
  -- that number.
  pub from_str_radix_i64_iff :
      (cs : List ℕ) (z : ℤ) → (from_str_radix_i64 radix cs ≡ some z) ↔ ReadsInt radix cs z
  from_str_radix_i64_iff [] z = (λ h. absurd (int_nothing z h), λ h. absurd (int_no_bytes z h))
  from_str_radix_i64_iff (c ∷ []) z = via (int_one_byte c) (Unsigned-iff c [] z) (no_lone_minus c z)
  from_str_radix_i64_iff (c ∷ d ∷ cs) z = elim (Bool-cases (c == b'+')) [
    | inl plus ↦ via (int_behind_sign c d cs true (c == b'-') plus refl) (Unsigned-iff d cs z) (
        no_minus c (d ∷ cs) (d ∷ cs) z (λ n. signed radix c n (d ∷ cs) (ground arith))
          (ne_minus plus))
    | inr e ↦ elim (Bool-cases (c == b'-')) [
      | inl below ↦
          via (int_behind_sign c d cs false true e below) (Negative-iff d cs z)
            (with_minus c (d ∷ cs) z (ground arith))
      | inr neither ↦
          via (int_behind_sign c d cs false false e neither) (Unsigned-iff c (d ∷ cs) z) (
            no_minus c (d ∷ cs) (c ∷ d ∷ cs) z (λ n. plain radix c n (d ∷ cs) (ne b'+' e))
              (ne b'-' neither))
    ]
  ]
    where
      ne : (a : ℕ) → (c == a) ≡ false → c ≢ a
      ne a e same = ground arith

      ne_minus : (c == b'+') ≡ true → c ≢ b'-'
      ne_minus e same = ground arith
