-- ===== src/Mgr/Args/Ports.antt =====
-- The loop over the port mask, `parse_portmask` of onvm_mgr/src/mgr/get_args.rs.
pub mod Returns
use native.Mathlib.Decide.{ℕ_discrete}
use native.Mathlib.Nat.{pow-suc}
use rust_onvm_v.Base.{
  ℕ, zero, suc, ◌+◌, ◌-◌, ◌*◌, ◌/◌, ◌%◌, ◌^◌, ◌≤◌, ◌<◌, ◌≡◌, ◌≢◌, ◌∙◌, ap, refl, arith, min, List,
  [], ◌∷◌, some, pos, ok, panic, bind_ok, length, length-set, set, leb, ◌==◌, ◌||◌, if◌then◌else◌,
  true, false, skip, is_running, Cmd, ◌>>◌, overflow,
}
use rust_onvm_v.Nflib.Structs.Ports.{PortInfo}
use rust_onvm_v.Mgr.System.{System}
use rust_onvm_v.Mgr.Args.{ArgError, use_port, portmask_loop}

-- The mask of the `k` lowest ports.
unfoldable pub ones : ℕ → ℕ
ones zero = 0
ones (suc k) = 1 + 2 * ones k

set-set {ℓ} : {A : Type ℓ} (xs : List A) (i : ℕ) (a b : A) → set (set xs i a) i b ≡ set xs i b
set-set [] i a b = refl
set-set (x ∷ xs) zero a b = refl
set-set (x ∷ xs) (suc i) a b = ap (λ l. x ∷ l) (set-set xs i a b)

half_odd : (n : ℕ) → (1 + 2 * n) / 2 ≡ n
half_odd n = omega arith

not_zero : (n : ℕ) → n % 2 ≡ 1 → (n == 0) ≡ false
not_zero n h = ground arith

==_true : (a b : ℕ) → a ≡ b → (a == b) ≡ true
==_true a b h = ground arith

==_false : (a b : ℕ) → a ≢ b → (a == b) ≡ false
==_false a b h = ground arith

not_leb : (a b : ℕ) → b < a → leb a b ≡ false
not_leb a b h = ground arith

positive : (n : ℕ) → n ≢ 0 → 0 < n
positive n h = omega arith

-- The slots after `k` ports from the number `count` on, of which the last below `max` stays.
abbrev pub last_port : ℕ → ℕ → ℕ → ℕ → List ℕ → List ℕ
last_port k max count slot ids =
    if (k == 0) || leb max count then ids else set ids slot ((min (count + k) max - 1) % 256)

abbrev pub with_ids : {W : Type 0} → System W → PortInfo → List ℕ → System W
with_ids s ports ids = record s {
  global = record (s.global) { ports = some (record ports { id = ids }) };
}

-- The slots after one round.
abbrev used : ℕ → ℕ → ℕ → List ℕ → List ℕ
used max count slot ids = if leb max count then ids else set ids slot (count % 256)

length-used : (max count slot : ℕ) (ids : List ℕ) → length (used max count slot ids) ≡ length ids
length-used max count slot ids = ground (arith, length-set ids slot (count % 256))

last_port_step :
    (k max count slot : ℕ) (ids : List ℕ)
    → last_port k max (count + 1) slot (used max count slot ids)
      ≡ last_port (suc k) max count slot ids
last_port_step k max count slot ids =
    ground (arith, set-set ids slot (count % 256) ((min (count + 1 + k) max - 1) % 256))

module _ {W : Type 0} (fuel max count : ℕ) (ports : PortInfo) (ids : List ℕ) (s : System W)
    (room : ports.num_ports < length ids) where
  use_port_lem :
      use_port max count (with_ids s ports ids)
      ≡ ok tt (with_ids s ports (used max count ports.num_ports ids))
  unfolding use_port
  use_port_lem = ground arith

  abbrev odd_round : ℕ → Cmd ArgError (System W) (Unit {0})
  odd_round n =
      use_port max count
      >> (if leb 65535 count
          then panic overflow
          else portmask_loop fuel max (pos (n / 2)) (count + 1))

  loop_odd :
      (n : ℕ)
      → count < 65535
      → n % 2 ≡ 1
      → portmask_loop (suc fuel) max (pos n) count (with_ids s ports ids)
        ≡ portmask_loop fuel max
            (pos (n / 2))
            (count + 1)
            (with_ids s ports (used max count ports.num_ports ids))
  unfolding portmask_loop
  loop_odd n few odd =
      ap
        (λ b.
          (if b
              then skip
              else if n % 2 == 1
              then odd_round n
              else portmask_loop fuel max (pos n) count)
            (with_ids s ports ids))
        (not_zero n odd)
      ∙ ap
          (λ b.
            (if b then odd_round n else portmask_loop fuel max (pos n) count)
              (with_ids s ports ids))
          (==_true (n % 2) 1 odd)
      ∙ bind_ok _ use_port_lem
      ∙ ap
          (λ b.
            (if b then panic overflow else portmask_loop fuel max (pos (n / 2)) (count + 1))
              (with_ids s ports (used max count ports.num_ports ids)))
          (not_leb 65535 count few)

  loop_even :
      (n : ℕ)
      → 0 < n
      → n % 2 ≡ 0
      → portmask_loop (suc fuel) max (pos n) count (with_ids s ports ids)
        ≡ portmask_loop fuel max (pos n) count (with_ids s ports ids)
  unfolding portmask_loop
  loop_even n some_bit even =
      ap
        (λ b.
          (if b
              then skip
              else if n % 2 == 1
              then odd_round n
              else portmask_loop fuel max (pos n) count)
            (with_ids s ports ids))
        (==_false n 0 (omega arith))
      ∙ ap
          (λ b.
            (if b then odd_round n else portmask_loop fuel max (pos n) count)
              (with_ids s ports ids))
          (==_false (n % 2) 1 (omega arith))

module _ {W : Type 0} where
  -- A mask of the lowest ports that leaves the counter below 2 ^ 16 is read to its end, where the
  -- slot of the next port can be written. All its ports go to one and the same slot, since
  -- the number of ports is never raised, so that the slot ends with the last of them below the limit.
  pub portmask_ones :
      (k fuel max count : ℕ) (ports : PortInfo) (ids : List ℕ) (s : System W)
      → ports.num_ports < length ids
      → k < fuel
      → count + k ≤ 65535
      → portmask_loop fuel max (pos (ones k)) count (with_ids s ports ids)
        ≡ ok tt (with_ids s ports (last_port k max count ports.num_ports ids))
  unfolding portmask_loop ones
  portmask_ones k zero max count ports ids s room enough few = absurd (omega arith)
  portmask_ones zero (suc fuel) max count ports ids s room enough few = refl
  portmask_ones (suc k) (suc fuel) max count ports ids s room enough few =
      loop_odd fuel max count ports ids s room (1 + 2 * ones k) (omega arith) (omega arith)
      ∙ ap
          (λ n.
            portmask_loop fuel max (pos n) (count + 1)
              (with_ids s ports (used max count ports.num_ports ids)))
          (half_odd (ones k))
      ∙ portmask_ones k fuel max (count + 1) ports (used max count ports.num_ports ids) s
          (omega (arith, length-used max count ports.num_ports ids)) (omega arith) (omega arith)
      ∙ ap (λ l. ok tt (with_ids s ports l)) (last_port_step k max count ports.num_ports ids)

  -- Any other mask that is not negative and leaves the counter below 2 ^ 16 keeps the loop running,
  -- whatever the fuel, where the slot of the next port can be written.
  pub portmask_other :
      (j fuel max n count : ℕ) (ports : PortInfo) (ids : List ℕ) (s : System W)
      → ports.num_ports < length ids
      → n < 2 ^ j
      → count + j ≤ 65535
      → ((k : ℕ) → n ≢ ones k)
      → is_running (portmask_loop fuel max (pos n) count (with_ids s ports ids)) ≡ true
  unfolding portmask_loop ones
  portmask_other j zero max n count ports ids s room small few other = refl
  portmask_other zero (suc fuel) max n count ports ids s room small few other =
      absurd (other 0 (omega arith))
  portmask_other (suc j) (suc fuel) max n count ports ids s room small few other =
      elim (ℕ_discrete (n % 2) 1) [
        | yes odd ↦
            ap is_running (loop_odd fuel max count ports ids s room n (omega arith) odd)
            ∙ portmask_other j fuel max (n / 2) (count + 1) ports
                (used max count ports.num_ports ids) s
                (omega (arith, length-used max count ports.num_ports ids))
                (omega (arith, pow-suc 2 j)) (omega arith) (λ k e. other (suc k) (omega arith))
        | no even ↦
            ap is_running
              (loop_even fuel max count ports ids s room n (positive n (other 0)) (omega arith))
            ∙ portmask_other (suc j) fuel max n count ports ids s room small few other
      ]
