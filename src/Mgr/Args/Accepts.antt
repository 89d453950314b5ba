-- ===== src/Mgr/Args/Accepts.antt =====
-- Which options the manager accepts: `parse_app_args` of onvm_mgr/src/mgr/get_args.rs, whichever of
-- the three are given.
use rust_onvm_v.Base.{
  ℕ, suc, ◌≤◌, ◌<◌, ◌≡◌, ◌↔◌, ◌∙◌, refl, arith, List, [], Option, none, some, pos, ok, bind_ok,
  unwrap, and_then, and_then_ok, length, skip, ◌>>◌, Cmd, ◌==◌, if◌then◌else◌, modify,
}
use rust_onvm_v.Nflib.Structs.Ports.{PortInfo}
use rust_onvm_v.Mgr.System.{System}
use rust_onvm_v.Mgr.Args.{
  ArgError, from_str_radix, Matches, parse_portmask, parse_num_services, parse_nf_cores,
  parse_app_args, on_value, coremask_loop, print_loop,
}
use rust_onvm_v.Mgr.Args.Numerals.Unsigned.{from_str_radix_iff}
use rust_onvm_v.Mgr.Args.Numerals.Signed.{from_str_radix_i64_iff}
use rust_onvm_v.Mgr.Args.Ports.{ones, last_port, with_ids}
use rust_onvm_v.Mgr.Args.Ports.Returns.{parse_portmask-ones, parse_portmask-returns}
use rust_onvm_v.Mgr.Args.Cores.{HasCores}
use rust_onvm_v.Mgr.Args.Cores.Whole.{AllOff, parse_nf_cores-Reads}
use rust_onvm_v.Mgr.Args.Whole.{with_services, parse_services}
use rust_onvm_v.Mgr.Args.Forms.{Given, IsByte, IsLowMask, few_ports}

module _ {W : Type 0} where
  unwrapped :
      {A : Type 0} (o : Option A) (a : A) (s t : System W)
      → unwrap {E = ArgError} o s ≡ ok a t
      → o ≡ some a
  unwrapped none a s t e = cc
  unwrapped (some b) a s t e = cc

  services-returns :
      (text : List ℕ) (s t : System W) → parse_num_services text s ≡ ok tt t → IsByte text
  unfolding parse_num_services
  services-returns text s t h =
      let (r, s1, read, h1) =
        and_then_ok (unwrap (from_str_radix 10 255 text) s)
          (λ r. modify (λ s. record s { global = record (s.global) { num_services = r } })) h in
      let (reads, small) =
        (from_str_radix_iff 10 255 (omega arith) text r).0 (unwrapped _ r s s1 read) in
      (r, reads, small)

  cores-returns :
      (fuel max_cores : ℕ) (text : List ℕ) (s t : System W) (listed : List ℕ)
      → parse_nf_cores fuel max_cores text s ≡ ok listed t
      → IsByte text
  unfolding parse_nf_cores
  cores-returns fuel max_cores text s t listed h =
      let (m, s1, read, h1) = and_then_ok (unwrap (from_str_radix 10 255 text) s) body h in
      let (reads, small) =
        (from_str_radix_iff 10 255 (omega arith) text m).0 (unwrapped _ m s s1 read) in
      (m, reads, small)
    where
      body : ℕ → Cmd ArgError (System W) (List ℕ)
      body pm = if pm == 0 then ok [] else (λ s.
          and_then (coremask_loop fuel max_cores pm 0 0 s) (λ n. print_loop max_cores 0 n 0))

  -- A command that is run if its option is given.
  Given-returns :
      (P : List ℕ → Type 0) (o : Option (List ℕ)) (f : List ℕ → Cmd ArgError (System W) (Unit {0}))
      (s t : System W)
      → ((text : List ℕ) → f text s ≡ ok tt t → P text)
      → on_value o f s ≡ ok tt t
      → Given P o
  Given-returns P none f s t h e = tt
  Given-returns P (some text) f s t h e = h text e

  options-return :
      (fuel max_cores max_ports : ℕ) (m : Matches) (s t : System W)
      → parse_app_args (suc fuel) max_cores max_ports (some m) s ≡ ok tt t
      → Given IsLowMask m.port_mask × Given IsByte m.num_services × Given IsByte m.nf_cores
  unfolding parse_app_args
  options-return fuel max_cores max_ports m s t h =
      let (u1, s1, first, h1) =
        and_then_ok (on_value m.port_mask (parse_portmask (suc fuel) max_ports) s) (λ _. rest) h in
      let (u2, s2, second, h2) =
        and_then_ok (on_value m.num_services parse_num_services s1) (λ _. last) h1 in
      (
        Given-returns IsLowMask m.port_mask _ s s1 (λ text e. mask text s1 e) first,
        Given-returns IsByte m.num_services _ s1 s2 (λ text e. services-returns text s1 s2 e)
            second,
        Given-returns IsByte m.nf_cores _ s2 t (λ text e. cores text s2 e) h2,
      )
    where
      last : Cmd ArgError (System W) (Unit {0})
      last = on_value m.nf_cores (λ t. parse_nf_cores (suc fuel) max_cores t >> skip)

      rest : Cmd ArgError (System W) (Unit {0})
      rest = on_value m.num_services parse_num_services >> last

      mask :
          (text : List ℕ) (s1 : System W)
          → parse_portmask (suc fuel) max_ports text s ≡ ok tt s1
          → IsLowMask text
      mask text s1 e =
          let (k, reads, enough, few) = parse_portmask-returns fuel max_ports text s s1 e in
          (k, (from_str_radix_i64_iff 16 (omega arith) text (pos (ones k))).0 reads)

      cores :
          (text : List ℕ) (s2 : System W)
          → (parse_nf_cores (suc fuel) max_cores text >> skip) s2 ≡ ok tt t
          → IsByte text
      cores text s2 e =
          let (listed, s3, run, h3) =
            and_then_ok (parse_nf_cores (suc fuel) max_cores text s2) (λ _. skip) e in
          cores-returns (suc fuel) max_cores text s2 s3 listed run

  Given-runs :
      (P : List ℕ → Type 0) (o : Option (List ℕ)) (f : List ℕ → Cmd ArgError (System W) (Unit {0}))
      (Q : System W → Type 0) (s : System W)
      → Q s
      → ((text : List ℕ) → P text → (t : System W) × (f text s ≡ ok tt t) × Q t)
      → Given P o
      → (t : System W) × (on_value o f s ≡ ok tt t) × Q t
  Given-runs P none f Q s q h g = (s, refl, q)
  Given-runs P (some text) f Q s q h g = h text g

  -- What the reading of the cores asks of a state.
  record HasOffCores (max_cores : ℕ) (s : System W) : Type 0 where
    cores : HasCores s
    room : max_cores ≤ length s.global.cores
    off : AllOff max_cores s

  -- Where the slot of the next port can be written, and each of the manager's cores has a status of
  -- its own, the first `max_cores` slots among them and at least one, and those are off, and with
  -- fuel above 255, the options are all read exactly if each one that is given can be: the mask of
  -- the ports is one of the lowest ports, in hexadecimal, and the number of services and the mask of
  -- the cores fit in a byte, in decimal. With any other option the manager does not get past its
  -- arguments.
  pub parse_app_args_iff :
      (fuel max_cores max_ports : ℕ) (m : Matches) (ports : PortInfo) (s : System W)
      → 255 ≤ fuel
      → s.global.ports ≡ some ports
      → ports.num_ports < length ports.id
      → HasCores s
      → max_cores ≤ length s.global.cores
      → 0 < max_cores
      → AllOff max_cores s
      → ((t : System W) × (parse_app_args (suc fuel) max_cores max_ports (some m) s ≡ ok tt t))
        ↔ (Given IsLowMask m.port_mask × Given IsByte m.num_services × Given IsByte m.nf_cores)
  unfolding parse_app_args
  parse_app_args_iff fuel max_cores max_ports m ports s enough there slot has room some_core off =
      (λ (t, h). options-return fuel max_cores max_ports m s t h, runs)
    where
      runs :
          Given IsLowMask m.port_mask × Given IsByte m.num_services × Given IsByte m.nf_cores
          → (t : System W) × (parse_app_args (suc fuel) max_cores max_ports (some m) s ≡ ok tt t)
      runs (low, services, chosen) =
          let (s1, first, fit1) =
            Given-runs IsLowMask m.port_mask (parse_portmask (suc fuel) max_ports)
              (HasOffCores max_cores) s (record { cores = has; room = room; off = off })
              (λ text (k, reads). (
                with_ids s ports (last_port k max_ports 0 ports.num_ports ports.id),
                parse_portmask-ones k (suc fuel) max_ports text ports s there slot
                    ((from_str_radix_i64_iff 16 (omega arith) text (pos (ones k))).1 reads)
                    (omega (arith, few_ports k text reads)) (omega (arith, few_ports k text reads)),
                record {
                  cores = record { distinct = has.distinct; filled = has.filled };
                  room = room;
                  off = off;
                },
              ))
              low in
          let (s2, second, fit2) =
            Given-runs IsByte m.num_services parse_num_services (HasOffCores max_cores) s1 fit1
              (λ text (r, reads, small). (
                with_services s1 r,
                parse_services r text s1 reads small,
                record {
                  cores = record { distinct = fit1.cores.distinct; filled = fit1.cores.filled };
                  room = fit1.room;
                  off = fit1.off;
                },
              ))
              services in
          let (s3, third, done) =
            Given-runs IsByte m.nf_cores (λ t. parse_nf_cores (suc fuel) max_cores t >> skip)
              (λ _. Unit) s2 tt
              (λ text (c, reads, small).
                let (t, listed, same, set) =
                  parse_nf_cores-Reads (suc fuel) max_cores c text s2 reads small fit2.cores
                    fit2.room some_core fit2.off (omega arith) in
                (t, bind_ok _ listed, tt))
              chosen in
          (s3, bind_ok _ first ∙ bind_ok _ second ∙ third)
