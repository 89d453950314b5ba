-- ===== src/Mgr/Args/Ports/Returns.antt =====
-- Which port masks `parse_portmask` of onvm_mgr/src/mgr/get_args.rs reads to the end.
use rust_onvm_v.Base.{
  ℕ, zero, suc, ◌<◌, ◌≤◌, ◌↔◌, length, bind_ok, unwrap_ok, ◌+◌, ◌*◌, ◌/◌, ◌%◌, ◌≡◌, ◌∙◌, sym, ap,
  refl, arith, List, some, none, ℤ, pos, negsuc, ok, panic, overflow, leb, ◌==◌, if◌then◌else◌,
  Bool-cases, inl, inr, true, false, skip, Cmd, Run, Bool, Option, ◌≢◌, ◌>>◌, and_then_ok, unwrap,
}
use rust_onvm_v.Nflib.Structs.Ports.{PortInfo}
use rust_onvm_v.Mgr.System.{System}
use rust_onvm_v.Mgr.Args.{
  ArgError, from_str_radix_i64, is_zero, is_odd, shift, use_port, portmask_loop, parse_portmask,
}
use rust_onvm_v.Mgr.Args.Numerals.Signed.{ReadsInt, from_str_radix_i64_iff}
use rust_onvm_v.Mgr.Args.Ports.{ones, last_port, with_ids, portmask_ones}

-- The mask of the `k` lowest ports, where there is fuel for them and the counter can stand for each.
abbrev pub IsOnes : (fuel count : ℕ) → ℤ → Type 0
IsOnes fuel count pm = (k : ℕ) × (pm ≡ pos (ones k)) × (k < fuel) × (count + k ≤ 65535)

odd_number : (n k : ℕ) → n % 2 ≡ 1 → n / 2 ≡ ones k → n ≡ ones (suc k)
unfolding ones
odd_number n k odd half = omega arith

pos_inj : (a b : ℕ) → pos a ≡ pos b → a ≡ b
pos_inj a b e = cc

IsOnes-zero :
    (fuel count : ℕ) (pm : ℤ) → count ≤ 65535 → is_zero pm ≡ true → IsOnes (suc fuel) count pm
unfolding ones
IsOnes-zero fuel count (pos n) few e = (0, ground arith, omega arith, omega arith)
IsOnes-zero fuel count (negsuc n) few e = cc

IsOnes-odd :
    (fuel count : ℕ) (pm : ℤ)
    → is_odd pm ≡ true
    → IsOnes fuel (count + 1) (shift pm)
    → IsOnes (suc fuel) count pm
IsOnes-odd fuel count (pos n) odd (k, e, enough, few) = (
  suc k,
  ap pos (odd_number n k (ground arith) (pos_inj (n / 2) (ones k) e)),
  omega arith,
  omega arith,
)
IsOnes-odd fuel count (negsuc n) odd (k, e, enough, few) = cc

IsOnes-even : (fuel count : ℕ) (pm : ℤ) → IsOnes fuel count pm → IsOnes (suc fuel) count pm
IsOnes-even fuel count pm (k, e, enough, few) = (k, e, omega arith, few)

module _ {W : Type 0} where
  other_arm :
      (b : Bool) (m n : Cmd ArgError (System W) (Unit {0})) (s : System W)
      {r : Run ArgError (System W) (Unit {0})}
      → b ≡ false
      → (if b then m else n) s ≡ r
      → n s ≡ r
  other_arm b m n s e h = sym (ap (λ b. (if b then m else n) s) e) ∙ h

  this_arm :
      (b : Bool) (m n : Cmd ArgError (System W) (Unit {0})) (s : System W)
      {r : Run ArgError (System W) (Unit {0})}
      → b ≡ true
      → (if b then m else n) s ≡ r
      → m s ≡ r
  this_arm b m n s e h = sym (ap (λ b. (if b then m else n) s) e) ∙ h

  not_ok :
      (s t : System W) (r : Run ArgError (System W) (Unit {0})) → r ≡ panic overflow s → r ≢ ok tt t
  not_ok s t r e h = cc

  -- The loop ends well only on a mask of the lowest ports, whatever the state, with fuel for them.
  portmask_loop-returns :
      (fuel max_ports count : ℕ) (pm : ℤ) (s t : System W)
      → count ≤ 65535
      → portmask_loop fuel max_ports pm count s ≡ ok tt t
      → IsOnes fuel count pm
  unfolding portmask_loop
  portmask_loop-returns zero max_ports count pm s t low h = cc
  portmask_loop-returns (suc fuel) max_ports count pm s t low h = elim (Bool-cases (is_zero pm)) [
    | inl nothing ↦ IsOnes-zero fuel count pm low nothing
    | inr something ↦ elim (Bool-cases (is_odd pm)) [
      | inl odd ↦
          let (u, s1, used, h1) =
            and_then_ok (use_port max_ports count s) (λ _. go_on)
              (this_arm (is_odd pm) (use_port max_ports count >> go_on) stay s odd
                (other_arm (is_zero pm) skip _ s something h)) in
          elim (Bool-cases (leb 65535 count)) [
            | inl last ↦ absurd (
                not_ok s1 t (panic overflow s1) refl
                  (this_arm (leb 65535 count) (panic overflow) again s1 last h1))
            | inr more ↦ IsOnes-odd fuel count pm odd (
                portmask_loop-returns fuel max_ports (count + 1) (shift pm) s1 t (ground arith)
                  (other_arm (leb 65535 count) (panic overflow) again s1 more h1))
          ]
      | inr even ↦ IsOnes-even fuel count pm (
          portmask_loop-returns fuel max_ports count pm s t low (
            other_arm (is_odd pm) (use_port max_ports count >> go_on) stay s even
              (other_arm (is_zero pm) skip _ s something h)))
    ]
  ]
    where
      again : Cmd ArgError (System W) (Unit {0})
      again = portmask_loop fuel max_ports (shift pm) (count + 1)

      go_on : Cmd ArgError (System W) (Unit {0})
      go_on = if leb 65535 count then panic overflow else again

      stay : Cmd ArgError (System W) (Unit {0})
      stay = portmask_loop fuel max_ports pm count

  -- A mask of the lowest ports is read to its end.
  pub parse_portmask-ones :
      (k fuel max_ports : ℕ) (mask : List ℕ) (ports : PortInfo) (s : System W)
      → s.global.ports ≡ some ports
      → ports.num_ports < length ports.id
      → from_str_radix_i64 16 mask ≡ some (pos (ones k))
      → k ≤ 65535
      → k < fuel
      → parse_portmask fuel max_ports mask s
        ≡ ok tt (with_ids s ports (last_port k max_ports 0 ports.num_ports ports.id))
  unfolding parse_portmask ones
  parse_portmask-ones zero fuel max_ports mask ports s there room reads few enough =
      bind_ok _ (unwrap_ok s reads)
      ∙ ap (λ o. ok tt (record s { global = record (s.global) { ports = o } })) there
  parse_portmask-ones (suc k) fuel max_ports mask ports s there room reads few enough =
      bind_ok _ (unwrap_ok s reads)
      ∙ ap (λ b. (if b then skip else portmask_loop fuel max_ports (pos (1 + 2 * ones k)) 0) s)
          (not_zero (ones k))
      ∙ ap
          (λ o.
            portmask_loop fuel max_ports (pos (ones (suc k))) 0
              (record s { global = record (s.global) { ports = o } }))
          there
      ∙ portmask_ones (suc k) fuel max_ports 0 ports ports.id s room enough (omega arith)
    where
      not_zero : (n : ℕ) → (1 + 2 * n == 0) ≡ false
      not_zero n = ground arith

  unwrapped :
      (o : Option ℤ) (pm : ℤ) (s t : System W) → unwrap {E = ArgError} o s ≡ ok pm t → o ≡ some pm
  unwrapped none pm s t e = cc
  unwrapped (some a) pm s t e = cc

  pub parse_portmask-returns :
      (fuel max_ports : ℕ) (mask : List ℕ) (s t : System W)
      → parse_portmask (suc fuel) max_ports mask s ≡ ok tt t
      → (k : ℕ) × (from_str_radix_i64 16 mask ≡ some (pos (ones k))) × (k < suc fuel) × (k ≤ 65535)
  unfolding parse_portmask
  parse_portmask-returns fuel max_ports mask s t h =
      let (pm, s1, read, h1) = and_then_ok (unwrap (from_str_radix_i64 16 mask) s) body h in
      let (k, e, enough, few) = whole pm s1 h1 in
      (
        k,
        unwrapped (from_str_radix_i64 16 mask) pm s s1 read ∙ ap some e,
        enough,
        omega (arith, few),
      )
    where
      body : ℤ → Cmd ArgError (System W) (Unit {0})
      body pm = if is_zero pm then skip else portmask_loop (suc fuel) max_ports pm 0

      whole : (pm : ℤ) (s1 : System W) → body pm s1 ≡ ok tt t → IsOnes (suc fuel) 0 pm
      whole pm s1 h1 = elim (Bool-cases (is_zero pm)) [
        | inl nothing ↦ IsOnes-zero fuel 0 pm (omega arith) nothing
        | inr something ↦
            portmask_loop-returns (suc fuel) max_ports 0 pm s1 t (omega arith) (
              other_arm (is_zero pm) skip (portmask_loop (suc fuel) max_ports pm 0) s1 something h1)
      ]

  -- Where the slot of the next port can be written, `parse_portmask` returns exactly on the texts
  -- that are, in hexadecimal and with one sign or none, a mask of the lowest ports, at most 65535
  -- and with fuel above their number.
  pub parse_portmask_iff :
      (fuel max_ports : ℕ) (mask : List ℕ) (ports : PortInfo) (s : System W)
      → s.global.ports ≡ some ports
      → ports.num_ports < length ports.id
      → ((t : System W) × (parse_portmask (suc fuel) max_ports mask s ≡ ok tt t))
        ↔ ((k : ℕ) × ReadsInt 16 mask (pos (ones k)) × (k < suc fuel) × (k ≤ 65535))
  parse_portmask_iff fuel max_ports mask ports s there room = (
    (λ (t, returned).
        let (k, reads, enough, few) = parse_portmask-returns fuel max_ports mask s t returned in
        (k, (from_str_radix_i64_iff 16 (omega arith) mask (pos (ones k))).0 reads, enough, few)),
    (λ (k, reads, enough, few). (
      with_ids s ports (last_port k max_ports 0 ports.num_ports ports.id),
      parse_portmask-ones k (suc fuel) max_ports mask ports s there room
          ((from_str_radix_i64_iff 16 (omega arith) mask (pos (ones k))).1 reads) few enough,
    )),
  )
