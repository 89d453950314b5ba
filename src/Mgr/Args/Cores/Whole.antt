-- ===== src/Mgr/Args/Cores/Whole.antt =====
-- `parse_nf_cores` of onvm_mgr/src/mgr/get_args.rs as a whole: the mask is read, the cores are
-- turned on, and the list of them is printed.
use rust_onvm_v.Base.{
  ℕ, zero, suc, ◌/◌, ◌%◌, ◌≤◌, ◌<◌, ◌≡◌, ◌∙◌, sym, ap, refl, arith, List, [], some, ok, Bool, true,
  false, bind_ok, unwrap_ok, and_then, get_elem?, get_elem?_lt, length, ltb, ◌==◌, ◌&&◌,
  if◌then◌else◌, Cmd, Bool-cases, inl, inr,
}
use rust_onvm_v.Nflib.Structs.Packets.{Ptr}
use rust_onvm_v.Nflib.Structs.Ports.{CoreStatus}
use rust_onvm_v.Mgr.System.{System}
use rust_onvm_v.Mgr.Args.{ArgError, coremask_loop, print_loop, parse_nf_cores, from_str_radix}
use rust_onvm_v.Mgr.Args.Numerals.{Reads}
use rust_onvm_v.Mgr.Args.Numerals.Unsigned.{from_str_radix_iff}
use rust_onvm_v.Mgr.Args.Cores.{chosen, chosen_zero, turned_on, HasCores}
use rust_onvm_v.Mgr.Args.Cores.Loop.{coremask_loop-chosen}
use rust_onvm_v.Mgr.Args.Cores.Counted.{loop_count_set}
use rust_onvm_v.Mgr.Args.Cores.Printed.{IsCore, numbers_from, stuck, print_loop-leading}

-- How many of the lowest `n` bits are set before the first that is not.
unfoldable pub leading : ℕ → ℕ → ℕ
leading zero pm = 0
leading (suc n) pm = let rest = leading n (pm / 2) in if pm % 2 == 1 then suc rest else 0

leading_le : (n pm : ℕ) → leading n pm ≤ n
unfolding leading
leading_le zero pm = omega arith
leading_le (suc n) pm = ground (arith, leading_le n (pm / 2))

leading_on : (n pm j : ℕ) → j < leading n pm → chosen pm j ≡ true
unfolding leading chosen
leading_on zero pm j h = absurd (omega arith)
leading_on (suc n) pm zero h = ground arith
leading_on (suc n) pm (suc j) h = elim (Bool-cases (pm % 2 == 1)) [
  | inl odd ↦ leading_on n (pm / 2) j (ground arith)
  | inr even ↦ ground arith
]

leading_off : (n pm : ℕ) → leading n pm < n → chosen pm (leading n pm) ≡ false
unfolding leading chosen
leading_off zero pm h = absurd (omega arith)
leading_off (suc n) pm h = elim (Bool-cases (pm % 2 == 1)) [
  | inl odd ↦ rw odd (leading_off n (pm / 2) (ground arith))
  | inr even ↦ rw even even
]

leading_zero : (n : ℕ) → leading n 0 ≡ 0
unfolding leading
leading_zero zero = refl
leading_zero (suc n) = refl

chosen_core :
    (max pm i : ℕ) (c : CoreStatus)
    → i < max
    → c.enabled ≡ false
    → (if ltb i max && chosen pm i then turned_on c else c).enabled ≡ chosen pm i
chosen_core max pm i c few off = ground arith

module _ {W : Type 0} where
  -- The first `max` cores are off.
  abbrev pub AllOff : ℕ → System W → Type 0
  AllOff max s =
      (i : ℕ) (p : Ptr) (c : CoreStatus)
      → i < max
      → get_elem? s.global.cores i ≡ some p
      → s.core_mem p ≡ some c
      → c.enabled ≡ false

  -- What the mask makes of the cores.
  abbrev pub AreChosen : ℕ → ℕ → System W → System W → Type 0
  AreChosen max pm s t =
      (i : ℕ) (p : Ptr) (c : CoreStatus)
      → get_elem? s.global.cores i ≡ some p
      → s.core_mem p ≡ some c
      → t.core_mem p ≡ some (if ltb i max && chosen pm i then turned_on c else c)

  IsCore-chosen :
      (max pm i : ℕ) (s t : System W)
      → HasCores s
      → max ≤ length s.global.cores
      → AllOff max s
      → t ≡ record s { core_mem = t.core_mem }
      → AreChosen max pm s t
      → i < max
      → IsCore t i (chosen pm i)
  IsCore-chosen max pm i s t has room off same set few =
      let (p, slot) = get_elem?_lt s.global.cores i (omega arith) in
      let (c, here) = has.filled i p slot in
      (
        p,
        (if ltb i max && chosen pm i then turned_on c else c),
        ap (λ (t : System W). get_elem? t.global.cores i) same ∙ slot,
        set i p c slot here,
        chosen_core max pm i c few (off i p c few slot here),
      )

  IsCore-is : (t : System W) (i : ℕ) (on on' : Bool) → on ≡ on' → IsCore t i on → IsCore t i on'
  IsCore-is t i on on' e (p, c, slot, here, is) = (p, c, slot, here, is ∙ e)

  print_chosen :
      (max pm n k : ℕ) (t : System W)
      → 0 < max
      → ((i : ℕ) → i < max → IsCore t i (chosen pm i))
      → (pm % 2 ≡ 1 → 0 < n)
      → leading max pm ≡ k
      → print_loop max 0 n 0 t ≡ ok (numbers_from 0 k) t
  unfolding numbers_from chosen
  print_chosen max pm n zero t some_core cores counted e = stuck n t max 0 0 (
      IsCore-is t 0 _ _ (ap (chosen pm) (sym e) ∙ leading_off max pm (omega (arith, e)))
        (cores 0 some_core))
  print_chosen max pm n (suc k) t some_core cores counted e =
      print_loop-leading n t max (suc k)
        (counted (odd_first (leading_on max pm 0 (omega (arith, e)))))
        (omega (arith, e, leading_le max pm))
        (λ j h.
          IsCore-is t j _ _ (leading_on max pm j (omega (arith, e)))
            (cores j (omega (arith, e, leading_le max pm))))
        (λ h.
          IsCore-is t (suc k) _ _ (ap (chosen pm) (sym e) ∙ leading_off max pm (omega (arith, e)))
            (cores (suc k) h))
    where
      odd_first : chosen pm 0 ≡ true → pm % 2 ≡ 1
      odd_first h = ground arith

  -- A mask of cores that is not 0.
  parse_positive :
      (fuel max_cores m : ℕ) (text : List ℕ) (s : System W)
      → from_str_radix 10 255 text ≡ some (suc m)
      → HasCores s
      → max_cores ≤ length s.global.cores
      → 0 < max_cores
      → AllOff max_cores s
      → suc m < fuel
      → (t : System W) × (parse_nf_cores fuel max_cores text s
          ≡ ok (numbers_from 0 (leading max_cores (suc m))) t)
        × (t ≡ record s { core_mem = t.core_mem })
        × AreChosen max_cores (suc m) s t
  unfolding parse_nf_cores
  parse_positive fuel max_cores m text s reads has room some_core off enough =
      let (n, t, runs, same, set) =
        coremask_loop-chosen fuel max_cores (suc m) s has room some_core enough in
      (
        t,
        bind_ok _ (unwrap_ok s reads)
            ∙ ap (λ b. (if b then ok [] else listed) s) (not_none m)
            ∙ bind_ok _ runs
            ∙ print_chosen max_cores (suc m) n (leading max_cores (suc m)) t some_core
                (λ i few. IsCore-chosen max_cores (suc m) i s t has room off same set few)
                (λ odd. loop_count_set fuel max_cores (suc m) 0 0 n s t odd some_core runs) refl,
        same,
        set,
      )
    where
      listed : Cmd ArgError (System W) (List ℕ)
      listed s =
          and_then (coremask_loop fuel max_cores (suc m) 0 0 s) (λ n. print_loop max_cores 0 n 0)

      not_none : (m : ℕ) → (suc m == 0) ≡ false
      not_none m = ground arith

  -- Where each of the manager's cores has a status of its own, the first `max_cores` slots among
  -- them and at least one, and those cores are off, a text that is read as a mask of a byte is read
  -- to its end with fuel above its value.
  parse_nf_cores-read :
      (fuel max_cores m : ℕ) (text : List ℕ) (s : System W)
      → from_str_radix 10 255 text ≡ some m
      → HasCores s
      → max_cores ≤ length s.global.cores
      → 0 < max_cores
      → AllOff max_cores s
      → m < fuel
      → (t : System W) × (parse_nf_cores fuel max_cores text s
          ≡ ok (numbers_from 0 (leading max_cores m)) t)
        × (t ≡ record s { core_mem = t.core_mem })
        × AreChosen max_cores m s t
  unfolding parse_nf_cores numbers_from
  parse_nf_cores-read fuel max_cores zero text s reads has room some_core off enough = (
    s,
    bind_ok _ (unwrap_ok s reads)
        ∙ ap (λ k. ok (numbers_from 0 k) s) (sym (leading_zero max_cores)),
    refl,
    λ i p c slot here. here ∙ ground (arith, chosen_zero i),
  )
  parse_nf_cores-read fuel max_cores (suc m) text s reads has room some_core off enough =
      parse_positive fuel max_cores m text s reads has room some_core off enough

  -- Where each of the manager's cores has a status of its own, the first `max_cores` slots among
  -- them and at least one, and those cores are off, a mask that is written in decimal, behind a plus
  -- or not, and fits in a byte is read to its end with fuel above its value: each core below
  -- `max_cores` whose bit is set is then enabled with no NFs, and nothing else changes; the cores
  -- below the first bit that is not set, and no others, are listed.
  pub parse_nf_cores-Reads :
      (fuel max_cores m : ℕ) (text : List ℕ) (s : System W)
      → Reads 10 text m
      → m ≤ 255
      → HasCores s
      → max_cores ≤ length s.global.cores
      → 0 < max_cores
      → AllOff max_cores s
      → m < fuel
      → (t : System W) × (parse_nf_cores fuel max_cores text s
          ≡ ok (numbers_from 0 (leading max_cores m)) t)
        × (t ≡ record s { core_mem = t.core_mem })
        × AreChosen max_cores m s t
  parse_nf_cores-Reads fuel max_cores m text s reads small has room some_core off enough =
      parse_nf_cores-read fuel max_cores m text s
        ((from_str_radix_iff 10 255 (omega arith) text m).1 (reads, small)) has room some_core off
        enough
