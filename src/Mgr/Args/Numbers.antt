-- ===== src/Mgr/Args/Numbers.antt =====
-- Numbers in decimal and hexadecimal, and the number of services, `parse_num_services` of
-- onvm_mgr/src/mgr/get_args.rs.
use rust_onvm_v.Base.{
  ℕ, zero, suc, ◌+◌, ◌*◌, ◌/◌, ◌%◌, ◌≤◌, ◌<◌, ◌≡◌, ◌∙◌, sym, ap, refl, arith, List, [], ◌∷◌, ◌++◌,
  Option, none, some, ok, panic, unwrap_failed, unwrap, ltb, leb, if◌then◌else◌, Bool-cases,
  Option-cases, inl, inr, modify, and_then, decimal, hexadecimal, print, print-Starts, Starts,
  digit, IsRadix, ten-IsRadix, sixteen-IsRadix, ◌-◌, ◌^◌,
}
use rust_onvm_v.Mgr.System.{System}
use rust_onvm_v.Mgr.Args.{
  to_digit, digits_value, from_str_radix, from_str_radix_i64, as_positive, parse_num_services,
}

-- The value with one more digit, if the bound allows it.
abbrev with_digit : ℕ → ℕ → ℕ → Option ℕ → Option ℕ
with_digit radix bound d none = none
with_digit radix bound d (some a) = if leb (a * radix + d) bound then some (a * radix + d) else none

abbrev pub if_fits : ℕ → ℕ → Option ℕ
if_fits bound n = if leb n bound then some n else none

to_digit_lem : (radix d : ℕ) → radix ≤ 36 → d < radix → to_digit radix (digit d) ≡ some d
unfolding to_digit
to_digit_lem radix d small low = ground arith

first_digit : (radix bound n : ℕ) → with_digit radix bound n (some 0) ≡ if_fits bound n
first_digit radix bound n = ground arith

with_digit_lem :
    (radix bound q r n : ℕ)
    → q * radix + r ≡ n
    → q ≤ n
    → with_digit radix bound r (if_fits bound q) ≡ if_fits bound n
with_digit_lem radix bound q r n e h = ground arith

module _ {radix : ℕ} (h : IsRadix radix) where
  last_digit :
      (bound acc d : ℕ)
      → d < radix
      → digits_value radix bound acc (digit d ∷ []) ≡ with_digit radix bound d (some acc)
  unfolding digits_value
  last_digit bound acc d low = rw (to_digit_lem radix d h.small low, digits_value) refl

  digits_value-append :
      (bound acc d : ℕ) (cs : List ℕ)
      → d < radix
      → digits_value radix bound acc (cs ++ (digit d ∷ []))
        ≡ with_digit radix bound d (digits_value radix bound acc cs)
  unfolding digits_value
  digits_value-append bound acc d [] low = last_digit bound acc d low
  digits_value-append bound acc d (c ∷ cs) low = elim (Option-cases (to_digit radix c)) [
    | inl e ↦ rw (e, digits_value) refl
    | inr (k, e) ↦ elim (Bool-cases (leb (acc * radix + k) bound)) [
      | inl fits ↦ rw (e, fits, digits_value) (digits_value-append bound (acc * radix + k) d cs low)
      | inr beyond ↦ rw (e, beyond, digits_value) refl
    ]
  ]

  digits_value-print :
      (fuel bound n : ℕ)
      → n < fuel
      → digits_value radix bound 0 (print radix fuel n) ≡ if_fits bound n
  unfolding print
  digits_value-print zero bound n enough = absurd (omega arith)
  digits_value-print (suc fuel) bound n enough = elim (Bool-cases (ltb n radix)) [
    | inl low ↦ rw low (last_digit bound 0 n (ground arith) ∙ first_digit radix bound n)
    | inr high ↦
        let less = h.shorter n (ground arith) in
        rw high (
          digits_value-append bound 0 (n % radix) (print radix fuel (n / radix)) (h.lower n)
          ∙ ap (with_digit radix bound (n % radix))
              (digits_value-print fuel bound (n / radix) (omega (arith, less)))
          ∙ with_digit_lem radix bound (n / radix) (n % radix) n (h.rebuilt n) (h.no_longer n))
  ]

-- A text without a sign.
unsigned :
    (radix bound : ℕ) (cs : List ℕ)
    → Starts cs
    → from_str_radix radix bound cs ≡ digits_value radix bound 0 cs
unfolding from_str_radix
unsigned radix bound [] (c, cs, e, digit) = cc
unsigned radix bound (x ∷ []) s = refl
unsigned radix bound (x ∷ y ∷ xs) (c, cs, e, digit) = ground arith

unsigned_i64 :
    (radix : ℕ) (cs : List ℕ)
    → Starts cs
    → from_str_radix_i64 radix cs ≡ as_positive (digits_value radix (2 ^ 63 - 1) 0 cs)
unfolding from_str_radix_i64
unsigned_i64 radix [] (c, cs, e, digit) = cc
unsigned_i64 radix (x ∷ []) s = refl
unsigned_i64 radix (x ∷ y ∷ xs) (c, cs, e, digit) = ground arith

-- Reading a number that is printed gives it back, if it is within the bound.
pub from_str_radix-decimal : (bound n : ℕ) → from_str_radix 10 bound (decimal n) ≡ if_fits bound n
unfolding decimal
from_str_radix-decimal bound n =
    unsigned 10 bound (print 10 (suc n) n) (print-Starts ten-IsRadix (suc n) n (omega arith))
    ∙ digits_value-print ten-IsRadix (suc n) bound n (omega arith)

-- A number in hexadecimal is read as an `i64` if it is below 2 ^ 63, and is an error if not.
pub from_str_radix_i64-hexadecimal :
    (n : ℕ) → from_str_radix_i64 16 (hexadecimal n) ≡ as_positive (if_fits (2 ^ 63 - 1) n)
unfolding hexadecimal
from_str_radix_i64-hexadecimal n =
    unsigned_i64 16 (print 16 (suc n) n) (print-Starts sixteen-IsRadix (suc n) n (omega arith))
    ∙ ap as_positive (digits_value-print sixteen-IsRadix (suc n) (2 ^ 63 - 1) n (omega arith))

some_inj : (a b : ℕ) → some a ≡ some b → a ≡ b
some_inj a b e = cc

pub decimal-inj : (a b : ℕ) → decimal a ≡ decimal b → a ≡ b
decimal-inj a b e =
    some_inj a b (
      read_back a (omega arith)
      ∙ ap (from_str_radix 10 (a + b)) e
      ∙ sym (read_back b (omega arith)))
  where
    read_back : (n : ℕ) → n ≤ a + b → some n ≡ from_str_radix 10 (a + b) (decimal n)
    read_back n h = sym (from_str_radix-decimal (a + b) n ∙ ground arith)

-- A number of services that is written in decimal is stored if it fits in a byte, and makes the
-- parser panic if it does not.
pub parse_num_services-decimal :
    {W : Type 0} (n : ℕ) (s : System W)
    → parse_num_services (decimal n) s ≡ (
        if ltb n 256
        then ok tt (record s { global = record (s.global) { num_services = n } })
        else panic unwrap_failed s)
unfolding parse_num_services
parse_num_services-decimal n s =
    ap
      (λ o.
        and_then (unwrap o s)
          (λ r. modify (λ s. record s { global = record (s.global) { num_services = r } })))
      (from_str_radix-decimal 255 n)
    ∙ ground arith
