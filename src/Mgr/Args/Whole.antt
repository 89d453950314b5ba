-- ===== src/Mgr/Args/Whole.antt =====
-- `parse_app_args` of onvm_mgr/src/mgr/get_args.rs as a whole: what the three options set.
use rust_onvm_v.Base.{
  ℕ, zero, suc, ◌≤◌, ◌<◌, ◌≡◌, ◌∙◌, refl, arith, List, some, pos, ok, bind_ok, unwrap_ok, length,
  hexadecimal, ◌-◌, ◌^◌,
}
use rust_onvm_v.Nflib.Structs.Ports.{PortInfo}
use rust_onvm_v.Mgr.System.{System}
use rust_onvm_v.Mgr.Args.{
  from_str_radix_i64, as_positive, Matches, parse_num_services, parse_app_args,
}
use rust_onvm_v.Mgr.Args.Ports.{ones, last_port, with_ids}
use rust_onvm_v.Mgr.Args.Ports.Returns.{parse_portmask-ones}
use rust_onvm_v.Mgr.Args.Numbers.{if_fits, from_str_radix_i64-hexadecimal}
use rust_onvm_v.Mgr.Args.Numerals.{Reads}
use rust_onvm_v.Mgr.Args.Numerals.Unsigned.{from_str_radix_iff}
use rust_onvm_v.Mgr.Args.Numerals.Signed.{ReadsInt, from_str_radix_i64_iff}
use rust_onvm_v.Mgr.Args.Cores.{HasCores}
use rust_onvm_v.Mgr.Args.Cores.Whole.{AllOff, AreChosen, parse_nf_cores-Reads}

-- The values of the three options.
abbrev pub all_options : (ports services cores : List ℕ) → Matches
all_options p r c = record { port_mask = some p; num_services = some r; nf_cores = some c }

pub ones_mono : (j k : ℕ) → j ≤ k → ones j ≤ ones k
unfolding ones
ones_mono zero k h = omega arith
ones_mono (suc j) zero h = absurd (omega arith)
ones_mono (suc j) (suc k) h = omega (arith, ones_mono j k (omega arith))

ones_63 : ones 63 ≡ 2 ^ 63 - 1
unfolding ones
ones_63 = refl

-- The mask of the `k` lowest ports, of at most 63, is read as it is.
pub reads_ones :
    (k : ℕ) → k ≤ 63 → from_str_radix_i64 16 (hexadecimal (ones k)) ≡ some (pos (ones k))
reads_ones k h =
    from_str_radix_i64-hexadecimal (ones k)
    ∙ fits (ones k) (2 ^ 63 - 1) (omega (arith, ones_mono k 63 h, ones_63))
  where
    fits : (n bound : ℕ) → n ≤ bound → as_positive (if_fits bound n) ≡ some (pos n)
    fits n bound h = ground arith

module _ {W : Type 0} where
  -- The state with the ports of a mask and a number of services.
  abbrev pub with_options : System W → PortInfo → List ℕ → ℕ → System W
  with_options s ports ids r = record s {
    global = record (s.global) { ports = some (record ports { id = ids }); num_services = r };
  }

  abbrev pub with_services : System W → ℕ → System W
  with_services s r = record s { global = record (s.global) { num_services = r } }

  pub parse_services :
      (r : ℕ) (text : List ℕ) (s : System W)
      → Reads 10 text r
      → r ≤ 255
      → parse_num_services text s ≡ ok tt (with_services s r)
  unfolding parse_num_services
  parse_services r text s reads small =
      bind_ok _ (unwrap_ok s ((from_str_radix_iff 10 255 (omega arith) text r).1 (reads, small)))

  -- With the mask of the `k` lowest ports, at most 65535, in hexadecimal, and `r` services and the
  -- mask `c` of cores in decimal, both at most 255 and behind a plus or not, the options are
  -- all read, where there is a slot for the next port, and each of the manager's cores has a status
  -- of its own, the first `max_cores` slots among them and at least one, and those are off: the slot
  -- of the next port ends with the last port of the mask below the limit, the number of services is
  -- `r`, each core below `max_cores` whose bit is set is enabled with no NFs, and nothing else
  -- changes. The fuel is above `k` and `c`.
  pub parse_app_args-applies :
      (fuel max_cores max_ports k r c : ℕ) (mask services cores : List ℕ) (ports : PortInfo)
      (s : System W)
      → ReadsInt 16 mask (pos (ones k))
      → Reads 10 services r
      → Reads 10 cores c
      → s.global.ports ≡ some ports
      → ports.num_ports < length ports.id
      → k ≤ 65535
      → k < fuel
      → r ≤ 255
      → HasCores s
      → max_cores ≤ length s.global.cores
      → 0 < max_cores
      → AllOff max_cores s
      → c < fuel
      → c ≤ 255
      → (t : System W) × (parse_app_args fuel max_cores max_ports
            (some (all_options mask services cores))
            s
          ≡ ok tt t)
        × (t ≡ record (with_options s ports (last_port k max_ports 0 ports.num_ports ports.id) r) {
          core_mem = t.core_mem;
        })
        × AreChosen max_cores c s t
  unfolding parse_app_args
  parse_app_args-applies fuel max_cores max_ports k r c mask services cores ports s low reads chosen
        there slot few enough small has room some_core off more fits =
      let ids = last_port k max_ports 0 ports.num_ports ports.id in
      let (t, runs, same, set) =
        parse_nf_cores-Reads fuel max_cores c cores (with_options s ports ids r) chosen fits
          (record { distinct = has.distinct; filled = has.filled }) room some_core off more in
      (
        t,
        bind_ok _ (
              parse_portmask-ones k fuel max_ports mask ports s there slot
                ((from_str_radix_i64_iff 16 (omega arith) mask (pos (ones k))).1 low) few enough)
            ∙ bind_ok _ (parse_services r services (with_ids s ports ids) reads small)
            ∙ bind_ok _ runs,
        same,
        set,
      )
