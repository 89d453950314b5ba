-- ===== src/Mgr/Args/Numerals.antt =====
-- Which texts are numbers to the standard library's `from_str_radix`, by whose help the options of
-- onvm_mgr/src/mgr/get_args.rs are read.
pub mod Unsigned
pub mod Signed
use mathlib.Core.Path.{subst}
use native.Mathlib.Nat.{mul_assoc, mul_comm}
use rust_onvm_v.Base.{
  ℕ, zero, suc, ◌+◌, ◌*◌, ◌^◌, ◌-◌, ◌≤◌, ◌<◌, ◌≡◌, ◌≢◌, ◌↔◌, ◌⊎◌, inl, inr, ◌∙◌, sym, ap, refl,
  arith, List, [], ◌∷◌, Option, none, some, leb, ltb, ◌==◌, ◌&&◌, if◌then◌else◌, Bool-cases, true,
  false, Option-cases,
}
use rust_onvm_v.Mgr.Args.{to_digit, digits_value, from_str_radix}

-- A byte stands for a digit below the radix: 0 to 9, then the letters, small or capital.
abbrev pub IsDigit : (radix c d : ℕ) → Type 0
IsDigit radix c d =
    (d < radix)
    × (((c ≡ b'0' + d) × (d < 10))
        ⊎ ((10 ≤ d) × (d < 36) × ((c + 10 ≡ b'a' + d) ⊎ (c + 10 ≡ b'A' + d))))

-- The bytes stand for the digits, one for one.
abbrev pub Spells : (radix : ℕ) (cs ds : List ℕ) → Type 0
Spells radix [] [] = Unit
Spells radix [] (d ∷ ds) = ⊥
Spells radix (c ∷ cs) [] = ⊥
Spells radix (c ∷ cs) (d ∷ ds) = IsDigit radix c d × Spells radix cs ds

-- What a digit in front of the digits counts.
unfoldable pub weight : ℕ → List ℕ → ℕ
weight radix [] = 1
weight radix (d ∷ ds) = radix * weight radix ds

-- The number that digits stand for, each by its place.
unfoldable pub value : ℕ → List ℕ → ℕ
unfolding weight
value radix [] = 0
value radix (d ∷ ds) = d * weight radix ds + value radix ds

to_digit-IsDigit : (radix c d : ℕ) → to_digit radix c ≡ some d → IsDigit radix c d
unfolding to_digit
to_digit-IsDigit radix c d h = elim (Bool-cases (leb b'0' c && leb c b'9')) [
  | inl e ↦ (ground arith, inl (ground arith, ground arith))
  | inr e ↦ elim (Bool-cases (leb b'a' c && leb c b'z')) [
    | inl e1 ↦ (ground arith, inr (ground arith, ground arith, inl (ground arith)))
    | inr e1 ↦ (ground arith, inr (ground arith, ground arith, inr (ground arith)))
  ]
]

IsDigit-to_digit : (radix c d : ℕ) → IsDigit radix c d → to_digit radix c ≡ some d
unfolding to_digit
IsDigit-to_digit radix c d (low, inl (e, h)) = ground arith
IsDigit-to_digit radix c d (low, inr (h1, h2, inl e)) = ground arith
IsDigit-to_digit radix c d (low, inr (h1, h2, inr e)) = ground arith

weight_pos : (radix : ℕ) (ds : List ℕ) → 0 < radix → 0 < weight radix ds
unfolding weight
weight_pos radix [] h = omega arith
weight_pos radix (d ∷ ds) h = grind (arith, weight_pos radix ds h)

-- The number with what stands before it.
next_digit :
    (radix acc d : ℕ) (ds : List ℕ)
    → acc * weight radix (d ∷ ds) + value radix (d ∷ ds)
      ≡ (acc * radix + d) * weight radix ds + value radix ds
unfolding weight value
next_digit radix acc d ds = grind arith

no_less : (radix acc : ℕ) (ds : List ℕ) → 0 < radix → acc ≤ acc * weight radix ds + value radix ds
no_less radix acc ds h = grind (arith, weight_pos radix ds h)

module _ (radix bound : ℕ) (base : 0 < radix) where
  digits_value-Spells :
      (acc n : ℕ) (cs : List ℕ)
      → acc ≤ bound
      → digits_value radix bound acc cs ≡ some n
      → (ds : List ℕ) × Spells radix cs ds
        × (acc * weight radix ds + value radix ds ≡ n)
        × (n ≤ bound)
  unfolding digits_value weight value
  digits_value-Spells acc n [] small h = ([], tt, ground arith, ground arith)
  digits_value-Spells acc n (c ∷ cs) small h = elim (Option-cases (to_digit radix c)) [
    | inl e ↦ absurd (no_value (sym (dropped e) ∙ h))
    | inr (d, e) ↦ elim (Bool-cases (leb (acc * radix + d) bound)) [
      | inl fits ↦
          let (ds, spelt, sum, low) =
            digits_value-Spells (acc * radix + d) n cs (ground arith) (sym (kept d e fits) ∙ h) in
          (d ∷ ds, (to_digit-IsDigit radix c d e, spelt), next_digit radix acc d ds ∙ sum, low)
      | inr beyond ↦ absurd (no_value (sym (refused d e beyond) ∙ h))
    ]
  ]
    where
      no_value : ¬ (◌≡◌ {A = Option ℕ} none (some n))
      no_value e = cc

      dropped : to_digit radix c ≡ none → digits_value radix bound acc (c ∷ cs) ≡ none
      dropped e = rw (e, digits_value) refl

      kept :
          (d : ℕ)
          → to_digit radix c ≡ some d
          → leb (acc * radix + d) bound ≡ true
          → digits_value radix bound acc (c ∷ cs) ≡ digits_value radix bound (acc * radix + d) cs
      kept d e fits = rw (e, fits, digits_value) refl

      refused :
          (d : ℕ)
          → to_digit radix c ≡ some d
          → leb (acc * radix + d) bound ≡ false
          → digits_value radix bound acc (c ∷ cs) ≡ none
      refused d e beyond = rw (e, beyond, digits_value) refl

  Spells-digits_value :
      (acc : ℕ) (cs ds : List ℕ)
      → Spells radix cs ds
      → acc * weight radix ds + value radix ds ≤ bound
      → digits_value radix bound acc cs ≡ some (acc * weight radix ds + value radix ds)
  unfolding digits_value weight value
  Spells-digits_value acc [] [] spelt low = ap some (omega arith)
  Spells-digits_value acc [] (d ∷ ds) spelt low = absurd spelt
  Spells-digits_value acc (c ∷ cs) [] spelt low = absurd spelt
  Spells-digits_value acc (c ∷ cs) (d ∷ ds) (is, spelt) low =
      let step = next_digit radix acc d ds in
      let rest = Spells-digits_value (acc * radix + d) cs ds spelt (omega (arith, step, low)) in
      rw (IsDigit-to_digit radix c d is, digits_value)
        (rw
          (leb_true (acc * radix + d)
            (omega (arith, step, low, no_less radix (acc * radix + d) ds base)))
          (rest ∙ ap some (sym step)))
    where
      leb_true : (m : ℕ) → m ≤ bound → leb m bound ≡ true
      leb_true m h = ground arith

-- One digit or more, for the number `n`.
abbrev pub Digits : (radix : ℕ) (cs : List ℕ) (n : ℕ) → Type 0
Digits radix cs n = (d : ℕ) × (ds : List ℕ) × Spells radix cs (d ∷ ds) × (value radix (d ∷ ds) ≡ n)

-- The same, where a plus may stand in front.
abbrev pub Reads : (radix : ℕ) (cs : List ℕ) (n : ℕ) → Type 0
Reads radix cs n = Digits radix cs n ⊎ ((t : List ℕ) × (cs ≡ b'+' ∷ t) × Digits radix t n)

pub not_plus : (radix c d : ℕ) → IsDigit radix c d → c ≢ b'+'
not_plus radix c d (low, inl (e, h)) same = omega arith
not_plus radix c d (low, inr (h1, h2, inl e)) same = omega arith
not_plus radix c d (low, inr (h1, h2, inr e)) same = omega arith

pub tail_eq : (a c : ℕ) (xs cs : List ℕ) → ◌≡◌ {A = List ℕ} (a ∷ xs) (c ∷ cs) → (a ≡ c) × (xs ≡ cs)
tail_eq a c xs cs e = (cc, cc)

-- A plus in front is passed over.
pub signed : (radix c n : ℕ) (cs : List ℕ) → c ≡ b'+' → Reads radix (c ∷ cs) n ↔ Digits radix cs n
signed radix c n cs plus = (forth, λ h. inr (cs, ap (λ a. a ∷ cs) plus, h))
  where
    forth : Reads radix (c ∷ cs) n → Digits radix cs n
    forth (inl (d, ds, (is, spelt), e)) = absurd (not_plus radix c d is plus)
    forth (inr (t, e, h)) = subst (λ t. Digits radix t n) (sym (tail_eq c b'+' cs t e).1) h

pub plain :
    (radix c n : ℕ) (cs : List ℕ) → c ≢ b'+' → Reads radix (c ∷ cs) n ↔ Digits radix (c ∷ cs) n
plain radix c n cs ne = (forth, inl)
  where
    forth : Reads radix (c ∷ cs) n → Digits radix (c ∷ cs) n
    forth (inl h) = h
    forth (inr (t, e, h)) = absurd (ne (tail_eq c b'+' cs t e).0)

-- One byte, which is no sign.
pub single : (radix c n : ℕ) → Reads radix (c ∷ []) n ↔ Digits radix (c ∷ []) n
single radix c n = (forth, inl)
  where
    forth : Reads radix (c ∷ []) n → Digits radix (c ∷ []) n
    forth (inl h) = h
    forth (inr (t, e, (d, ds, spelt, v))) =
        absurd (subst (λ t. Spells radix t (d ∷ ds)) (sym (tail_eq c b'+' [] t e).1) spelt)

module _ (radix bound : ℕ) (base : 0 < radix) where
  pub digits_value_iff :
      (n c : ℕ) (cs : List ℕ)
      → (digits_value radix bound 0 (c ∷ cs) ≡ some n) ↔ (Digits radix (c ∷ cs) n × (n ≤ bound))
  digits_value_iff n c cs = (forth, back)
    where
      first :
          (d : ℕ) (ds : List ℕ)
          → 0 * weight radix (d ∷ ds) + value radix (d ∷ ds) ≡ value radix (d ∷ ds)
      first d ds = omega arith

      forth : digits_value radix bound 0 (c ∷ cs) ≡ some n → Digits radix (c ∷ cs) n × (n ≤ bound)
      forth h =
          let (ds, spelt, sum, low) =
            digits_value-Spells radix bound base 0 n (c ∷ cs) (omega arith) h in
          (some_digit ds spelt sum, low)
        where
          some_digit :
              (ds : List ℕ)
              → Spells radix (c ∷ cs) ds
              → 0 * weight radix ds + value radix ds ≡ n
              → Digits radix (c ∷ cs) n
          some_digit [] spelt sum = absurd spelt
          some_digit (d ∷ ds) spelt sum = (d, ds, spelt, omega (arith, sum))

      back : Digits radix (c ∷ cs) n × (n ≤ bound) → digits_value radix bound 0 (c ∷ cs) ≡ some n
      back ((d, ds, spelt, e), low) =
          Spells-digits_value radix bound base 0 (c ∷ cs) (d ∷ ds) spelt (omega (arith, e, low))
          ∙ ap some (first d ds ∙ e)
