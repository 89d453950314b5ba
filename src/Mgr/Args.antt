-- ===== src/Mgr/Args.antt =====
-- The manager's arguments, onvm_mgr/src/mgr/get_args.rs. A text is the list of its bytes. The
-- parser of options, the crate `getopts`, and the number of cores, the crate `num_cpus`, are
-- parameters. Printing is left out, but for the list of cores.
pub mod Ports
pub mod Numbers
pub mod Numerals
pub mod Cores
pub mod Frame
pub mod Whole
pub mod Forms
pub mod Accepts
use rust_onvm_v.Base.{
  ℕ, zero, suc, ◌+◌, ◌-◌, ◌*◌, ◌/◌, ◌%◌, ◌^◌, List, [], ◌∷◌, Option, none, some, ℤ, pos, negsuc,
  Run, Cmd, ok, err, panic, out_of_fuel, overflow, index_out_of_bounds, unwrap, ◌>>=◌, ◌>>◌, skip,
  get, modify, deref, index_at, checked_pred, ltb, leb, ◌==◌, ◌&&◌, not, if◌then◌else◌, Bool, true,
  false, length, set,
}
use rust_onvm_v.Nflib.Structs.Ports.{PortInfo, CoreStatus}
use rust_onvm_v.Nflib.Structs.Packets.{Ptr}
use rust_onvm_v.Mgr.System.{System, core_at, load_core, store_core}

-- The digit that a byte stands for, below the radix.
unfoldable pub to_digit : ℕ → ℕ → Option ℕ
to_digit radix c =
    if leb b'0' c && leb c b'9'
    then (if ltb (c - b'0') radix then some (c - b'0') else none)
    else if leb b'a' c && leb c b'z'
    then (if ltb (c - b'a' + 10) radix then some (c - b'a' + 10) else none)
    else if leb b'A' c && leb c b'Z'
    then (if ltb (c - b'A' + 10) radix then some (c - b'A' + 10) else none)
    else none

-- The digits after a sign, up to `bound`; what passes the bound is an error.
unfoldable pub digits_value : ℕ → ℕ → ℕ → List ℕ → Option ℕ
unfolding to_digit
digits_value radix bound acc [] = some acc
digits_value radix bound acc (c ∷ cs) = elim (to_digit radix c) [
  | none ↦ none
  | some d ↦
      let rest = digits_value radix bound (acc * radix + d) cs in
      if leb (acc * radix + d) bound then rest else none
]

-- `T::from_str_radix` for an unsigned `T` up to `bound`: a plus may stand in front of the digits.
unfoldable pub from_str_radix : ℕ → ℕ → List ℕ → Option ℕ
unfolding digits_value
from_str_radix radix bound [] = none
from_str_radix radix bound (c ∷ []) = digits_value radix bound 0 (c ∷ [])
from_str_radix radix bound (c ∷ d ∷ cs) =
    if c == b'+'
    then digits_value radix bound 0 (d ∷ cs)
    else digits_value radix bound 0 (c ∷ d ∷ cs)

abbrev negated : Option ℕ → Option ℤ
negated none = none
negated (some zero) = some (pos 0)
negated (some (suc n)) = some (negsuc n)

abbrev pub as_positive : Option ℕ → Option ℤ
as_positive none = none
as_positive (some n) = some (pos n)

-- `i64::from_str_radix`.
unfoldable pub from_str_radix_i64 : ℕ → List ℕ → Option ℤ
unfolding digits_value
from_str_radix_i64 radix [] = none
from_str_radix_i64 radix (c ∷ []) = as_positive (digits_value radix (2 ^ 63 - 1) 0 (c ∷ []))
from_str_radix_i64 radix (c ∷ d ∷ cs) =
    if c == b'+'
    then as_positive (digits_value radix (2 ^ 63 - 1) 0 (d ∷ cs))
    else if c == b'-'
    then negated (digits_value radix (2 ^ 63) 0 (d ∷ cs))
    else as_positive (digits_value radix (2 ^ 63 - 1) 0 (c ∷ d ∷ cs))

-- `pm & 0x01 != 0` and `pm >> 1` on an `i64`.
abbrev pub is_odd : ℤ → Bool
is_odd (pos n) = n % 2 == 1
is_odd (negsuc n) = n % 2 == 0

abbrev pub shift : ℤ → ℤ
shift (pos n) = pos (n / 2)
shift (negsuc n) = negsuc (n / 2)

abbrev pub is_zero : ℤ → Bool
is_zero (pos n) = n == 0
is_zero (negsuc n) = false

-- What getopts finds: the values of `-p`, `-r` and `-n`.
pub record Matches : Type 0 where
  pub port_mask : Option (List ℕ)
  pub num_services : Option (List ℕ)
  pub nf_cores : Option (List ℕ)

-- The message of `exit_on_failure`.
pub data ArgError : Type 0 where
  no_arguments : ArgError

module _ {W : Type 0} where
  -- `id[num_ports] = count as u8`.
  unfoldable pub assign_port : ℕ → Cmd ArgError (System W) (Unit {0})
  assign_port count = do
    s ← get
    ports ← deref s.global.ports
    (if ltb ports.num_ports (length ports.id)
        then modify (λ s. record s {
          global = record (s.global) {
            ports = some (record ports { id = set ports.id ports.num_ports (count % 256) });
          };
        })
        else panic index_out_of_bounds)

  -- A port that is set in the mask: one beyond the limit is ignored.
  unfoldable pub use_port : ℕ → ℕ → Cmd ArgError (System W) (Unit {0})
  unfolding assign_port
  use_port max_ports count = if leb max_ports count then skip else assign_port count

  -- The `while` loop, with fuel: the mask is shifted only where its lowest bit is set.
  unfoldable pub portmask_loop : ℕ → ℕ → ℤ → ℕ → Cmd ArgError (System W) (Unit {0})
  unfolding use_port
  portmask_loop zero max_ports pm count = out_of_fuel
  portmask_loop (suc fuel) max_ports pm count =
      if is_zero pm
      then skip
      else if is_odd pm
      then use_port max_ports count
        >> (if leb 65535 count
            then panic overflow
            else portmask_loop fuel max_ports (shift pm) (count + 1))
      else portmask_loop fuel max_ports pm count

  unfoldable pub parse_portmask : ℕ → ℕ → List ℕ → Cmd ArgError (System W) (Unit {0})
  unfolding portmask_loop from_str_radix_i64
  parse_portmask fuel max_ports portmask = do
    pm ← unwrap (from_str_radix_i64 16 portmask)
    (if is_zero pm then skip else portmask_loop fuel max_ports pm 0)

  unfoldable pub parse_num_services : List ℕ → Cmd ArgError (System W) (Unit {0})
  unfolding from_str_radix
  parse_num_services services = do
    r ← unwrap (from_str_radix 10 255 services)
    modify (λ s. record s { global = record (s.global) { num_services = r } })

  -- `enabled = true; nf_count = 0`.
  unfoldable pub enable_core : ℕ → Cmd ArgError (System W) (Unit {0})
  enable_core i = do
    p ← core_at i
    c ← load_core p
    store_core p (record c { enabled = true })
    p ← core_at i
    c ← load_core p
    store_core p (record c { nf_count = 0 })

  -- The `while` loop over the mask, with fuel; the result is how many cores it enabled.
  unfoldable pub coremask_loop : ℕ → ℕ → ℕ → ℕ → ℕ → Cmd ArgError (System W) ℕ
  unfolding enable_core
  coremask_loop zero max_cores pm count num_cores = out_of_fuel
  coremask_loop (suc fuel) max_cores pm count num_cores =
      if pm == 0
      then ok num_cores
      else (if not (pm % 2 == 1)
          then ok num_cores
          else if leb max_cores count
          then ok num_cores
          else enable_core count >> ok (num_cores + 1))
        >>= λ num_cores.
            if count + 1 == max_cores
            then ok num_cores
            else coremask_loop fuel max_cores (pm / 2) (count + 1) num_cores

  -- The cores that are printed: `n` rounds are left, the next is round `i`; `count` indexes.
  unfoldable pub print_loop : ℕ → ℕ → ℕ → ℕ → Cmd ArgError (System W) (List ℕ)
  print_loop zero i num_cores count = ok []
  print_loop (suc n) i num_cores count = do
    p ← core_at count
    c ← load_core p
    (if not c.enabled then print_loop n (suc i) num_cores count else do
      checked_pred num_cores
      rest ← print_loop n (suc i) num_cores (count + 1)
      ok (i ∷ rest))

  unfoldable pub parse_nf_cores : ℕ → ℕ → List ℕ → Cmd ArgError (System W) (List ℕ)
  unfolding coremask_loop print_loop from_str_radix
  parse_nf_cores fuel max_cores nf_coremask = do
    pm ← unwrap (from_str_radix 10 255 nf_coremask)
    (if pm == 0
        then ok []
        else do num_cores ← coremask_loop fuel max_cores pm 0 0; print_loop max_cores 0 num_cores 0)

  abbrev pub on_value :
      Option (List ℕ)
      → (List ℕ → Cmd ArgError (System W) (Unit {0}))
      → Cmd ArgError (System W) (Unit {0})
  on_value none f = skip
  on_value (some t) f = f t

  -- `matches` is `none` where getopts fails.
  unfoldable pub parse_app_args : ℕ → ℕ → ℕ → Option Matches → Cmd ArgError (System W) (Unit {0})
  unfolding parse_portmask parse_num_services parse_nf_cores
  parse_app_args fuel max_cores max_ports none = err no_arguments
  parse_app_args fuel max_cores max_ports (some m) = do
    on_value m.port_mask (parse_portmask fuel max_ports)
    on_value m.num_services parse_num_services
    on_value m.nf_cores (λ t. parse_nf_cores fuel max_cores t >> skip)
