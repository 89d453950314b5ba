-- ===== src/Tests/Options.antt =====
-- The options of the manager at concrete inputs.
use rust_onvm_v.Base.{
  final, ℕ, List, decimal, hexadecimal, inl, inr, ◌↔◌, ◌<◌, ◌≤◌, ◌≡◌, refl, arith, [], ◌∷◌, none,
  some, ok, pos, false,
}
use rust_onvm_v.Nflib.Structs.Ports.{PortInfo}
use rust_onvm_v.Mgr.System.{System}
use rust_onvm_v.Mgr.Args.{
  ArgError, Matches, from_str_radix_i64, parse_portmask, parse_nf_cores, parse_app_args,
}
use rust_onvm_v.Mgr.Args.Ports.{ones, last_port}
use rust_onvm_v.Mgr.Args.Ports.Returns.{parse_portmask_iff}
use rust_onvm_v.Mgr.Args.Cores.{HasCores}
use rust_onvm_v.Mgr.Args.Cores.Printed.{numbers_from}
use rust_onvm_v.Mgr.Args.Cores.Whole.{AllOff, AreChosen, leading, parse_nf_cores-Reads}
use rust_onvm_v.Mgr.Args.Numerals.{Reads}
use rust_onvm_v.Mgr.Args.Numerals.Signed.{ReadsInt}
use rust_onvm_v.Mgr.Args.Frame.{view, parse_app_args-view}
use rust_onvm_v.Mgr.Args.Accepts.{parse_app_args_iff}
use rust_onvm_v.Mgr.Args.Forms.{Given, IsByte, IsLowMask, IsByte-decimal, IsLowMask-hexadecimal}
use rust_onvm_v.Mgr.Args.Whole.{all_options, with_options, parse_app_args-applies}
use rust_onvm_v.Tests.Startup.{with_three, three_ports}

-- Three cores that are off, and four slots for ports, of which none is in use.
abbrev pub four_slots : PortInfo
four_slots = record three_ports { num_ports = 0; id = 0 ∷ 0 ∷ 0 ∷ 0 ∷ [] }

abbrev pub cores_off : System (List ℕ)
cores_off = record (with_three []) {
  global = record ((with_three []).global) {
    cores = 2000 ∷ 2001 ∷ 2002 ∷ [];
    ports = some four_slots;
  };
  core_mem = λ p. some (record { enabled = false; is_dedicated_core = 1; nf_count = 1 });
}

pub cores_off-HasCores : HasCores cores_off
cores_off-HasCores = record {
  distinct = (refl, (refl, (refl, tt)));
  filled = λ i p slot. (record { enabled = false; is_dedicated_core = 1; nf_count = 1 }, refl);
}

pub cores_off-AllOff : AllOff 3 cores_off
cores_off-AllOff i p c few slot here = ground arith

-- The texts 3, +3 and 5.
abbrev pub three_text : List ℕ
three_text = b'3' ∷ []

abbrev pub plus_three_text : List ℕ
plus_three_text = b'+' ∷ b'3' ∷ []

abbrev pub five_text : List ℕ
five_text = b'5' ∷ []

pub three_mask : ReadsInt 16 three_text (pos (ones 2))
unfolding ones rust_onvm_v.Mgr.Args.Numerals.value rust_onvm_v.Mgr.Args.Numerals.weight
three_mask =
    inl (3, inl (3, [], ((omega arith, inl (refl, omega arith)), tt), refl), omega arith, refl)

pub three_read : Reads 10 plus_three_text 3
unfolding rust_onvm_v.Mgr.Args.Numerals.value rust_onvm_v.Mgr.Args.Numerals.weight
three_read = inr (three_text, refl, (3, [], ((omega arith, inl (refl, omega arith)), tt), refl))

pub five_read : Reads 10 five_text 5
unfolding rust_onvm_v.Mgr.Args.Numerals.value rust_onvm_v.Mgr.Args.Numerals.weight
five_read = inl (5, [], ((omega arith, inl (refl, omega arith)), tt), refl)

-- The mask 5 of the first and the third core: only the first is listed.
parse_nf_cores-Reads_example :
    (t : System (List ℕ)) × (parse_nf_cores 6 3 five_text cores_off
      ≡ ok (numbers_from 0 (leading 3 5)) t)
    × (t ≡ record cores_off { core_mem = t.core_mem })
    × AreChosen 3 5 cores_off t
parse_nf_cores-Reads_example =
    parse_nf_cores-Reads 6 3 5 five_text cores_off five_read (omega arith) cores_off-HasCores
      (omega arith) (omega arith) cores_off-AllOff (omega arith)

first_listed : numbers_from 0 (leading 3 5) ≡ 0 ∷ []
unfolding numbers_from leading
first_listed = refl

-- The ports 0 and 1 of four, three services and the mask 5 of cores.
parse_app_args-applies_example :
    (t : System (List ℕ)) × (parse_app_args 6 3 4
        (some (all_options three_text plus_three_text five_text))
        cores_off
      ≡ ok tt t)
    × (t
        ≡ record (with_options cores_off four_slots
            (last_port 2 4 0 four_slots.num_ports four_slots.id)
            3) { core_mem = t.core_mem })
    × AreChosen 3 5 cores_off t
parse_app_args-applies_example =
    parse_app_args-applies 6 3 4 2 3 5 three_text plus_three_text five_text four_slots cores_off
      three_mask three_read five_read refl (omega arith) (omega arith) (omega arith) (omega arith)
      cores_off-HasCores (omega arith) (omega arith) cores_off-AllOff (omega arith) (omega arith)

-- Without a number of services.
abbrev two_options : Matches
two_options = record { port_mask = some three_text; num_services = none; nf_cores = some five_text }

parse_app_args_iff_example :
    ((t : System (List ℕ)) × (parse_app_args 256 3 4 (some two_options) cores_off ≡ ok tt t)) ↔ (
      Given IsLowMask two_options.port_mask
      × Given IsByte two_options.num_services
      × Given IsByte two_options.nf_cores)
parse_app_args_iff_example =
    parse_app_args_iff 255 3 4 two_options four_slots cores_off (omega arith) refl (omega arith)
      cores_off-HasCores (omega arith) (omega arith) cores_off-AllOff

-- The port mask 3.
mask_read :
    parse_portmask 5 4 (b'3' ∷ []) cores_off
    ≡ ok tt (record cores_off {
      global = record (cores_off.global) {
        ports = some (record four_slots { id = 1 ∷ 0 ∷ 0 ∷ 0 ∷ [] });
      };
    })
unfolding parse_portmask from_str_radix_i64 rust_onvm_v.Mgr.Args.digits_value
    rust_onvm_v.Mgr.Args.to_digit rust_onvm_v.Mgr.Args.portmask_loop rust_onvm_v.Mgr.Args.use_port
    rust_onvm_v.Mgr.Args.assign_port
mask_read = refl

parse_portmask_example :
    ((t : System (List ℕ)) × (parse_portmask 5 4 (b'3' ∷ []) cores_off ≡ ok tt t))
    ↔ ((k : ℕ) × ReadsInt 16 (b'3' ∷ []) (pos (ones k)) × (k < 5) × (k ≤ 65535))
parse_portmask_example = parse_portmask_iff 4 4 (b'3' ∷ []) four_slots cores_off refl (omega arith)

-- The ports 0 and 1, three services and the mask 5 of cores, as they are printed, are accepted.
printed_accepted :
    (t : System (List ℕ)) × (parse_app_args 256 3 4
        (some (all_options (hexadecimal (ones 2)) (decimal 3) (decimal 5)))
        cores_off
      ≡ ok tt t)
printed_accepted =
    (parse_app_args_iff 255 3 4 (all_options (hexadecimal (ones 2)) (decimal 3) (decimal 5))
        four_slots cores_off (omega arith) refl (omega arith) cores_off-HasCores (omega arith)
        (omega arith) cores_off-AllOff).1
      (
        IsLowMask-hexadecimal 2 (omega arith),
        IsByte-decimal 3 (omega arith),
        IsByte-decimal 5 (omega arith),
      )

-- The mask of the second port alone, at which the manager hangs.
parse_app_args-view_example :
    view (List ℕ) (
      final
        (parse_app_args 6 3 4 (some (all_options (b'2' ∷ []) plus_three_text five_text)) cores_off))
    ≡ view (List ℕ) cores_off
parse_app_args-view_example =
    parse_app_args-view (List ℕ) 6 3 4 (some (all_options (b'2' ∷ []) plus_three_text five_text))
      cores_off
