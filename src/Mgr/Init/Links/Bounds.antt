-- ===== src/Mgr/Init/Links/Bounds.antt =====
-- How often `check_all_ports_link_status` of onvm_mgr/src/mgr/init.rs asks for links, whatever the
-- device answers.
use Prim.Native.Nat.{bit_and}
use mathlib.Core.Path.{subst}
use rust_onvm_v.Base.{
  ℕ, ℤ, zero, suc, List, Option, none, sym, ◌≢◌, ◌+◌, ◌-◌, ◌*◌, ◌^◌, ◌≤◌, ◌≡◌, ap, refl, arith,
  some, ok, err, panic, fault, exit, out_of_fuel, Run, Cmd, Bool, true, false, final, is_running,
  and_then, bind_ok, deref_ok, skip, index_at, deref, fail, eq_ℤ, leb, ◌==◌, ◌&&◌, ◌||◌, not,
  if◌then◌else◌,
}
use rust_onvm_v.Nflib.Structs.Ports.{PortInfo}
use rust_onvm_v.Mgr.System.{System, call, effect}
use rust_onvm_v.Mgr.Init.Dpdk.{InitDpdk, Link, neg_enodev, neg_enotsup}
use rust_onvm_v.Mgr.Init.Port.{InitError, link_unsupported, bad_link_port}
use rust_onvm_v.Mgr.Init.Links.{
  check_port, check_ports, check_rounds, check_all_ports_link_status, check_interval,
  max_check_time,
}

-- A count of how often a device is asked for a link.
pub record Counts {W : Type 0} (d : InitDpdk W) : Type 0 where
  pub asked : W → ℕ
  pub asked_lem : (p : ℕ) (w : W) → asked (d.link_get_nowait p w).1 ≡ asked w + 1
  pub delay_lem : (n : ℕ) (w : W) → asked (d.delay_us_sleep n w) ≡ asked w

module _ {W : Type 0} (d : InitDpdk W) (mask : ℕ) (c : Counts d) where
  -- However the command ends, it has asked at most `n` times, and it has ended.
  record Asks {A : Type 0} (n : ℕ) (s : System W) (r : Run InitError (System W) A) : Type 0 where
    few : c.asked (final r).world ≤ c.asked s.world + n
    ends : is_running r ≡ false

  Asks-here :
      {A : Type 0} (n : ℕ) (s : System W) (r : Run InitError (System W) A)
      → final r ≡ s
      → is_running r ≡ false
      → Asks n s r
  Asks-here n s r same ends = record {
    few = omega (arith, ap (λ (t : System W). c.asked t.world) same);
    ends = ends;
  }

  Asks-as :
      {A : Type 0} (m n : ℕ) (s : System W) (r : Run InitError (System W) A)
      → m ≤ n
      → Asks m s r
      → Asks n s r
  Asks-as m n s r h a = record { few = omega (arith, a.few); ends = a.ends }

  Asks-bind :
      {A B : Type 0} (m n : ℕ) (s : System W) (r : Run InitError (System W) A)
      (k : A → Cmd InitError (System W) B)
      → Asks m s r
      → ((a : A) (t : System W) → Asks n t (k a t))
      → Asks (m + n) s (and_then r k)
  Asks-bind m n s (ok a t) k h g = record {
    few = omega (arith, h.few, (g a t).few);
    ends = (g a t).ends;
  }
  Asks-bind m n s (err e t) k h g = record { few = omega (arith, h.few); ends = refl }
  Asks-bind m n s (panic p t) k h g = record { few = omega (arith, h.few); ends = refl }
  Asks-bind m n s (fault t) k h g = record { few = omega (arith, h.few); ends = refl }
  Asks-bind m n s (exit t) k h g = record { few = omega (arith, h.few); ends = refl }
  Asks-bind m n s (out_of_fuel t) k h g = absurd (still_running h.ends)
    where
      still_running : true ≢ false
      still_running e = cc

  Asks-if :
      {A : Type 0} (b : Bool) (n : ℕ) (m k : Cmd InitError (System W) A) (s : System W)
      → Asks n s (m s)
      → Asks n s (k s)
      → Asks n s ((if b then m else k) s)
  Asks-if true n m k s h g = h
  Asks-if false n m k s h g = g

  Asks-deref : {A : Type 0} (o : Option A) (s : System W) → Asks 0 s (deref o s)
  Asks-deref none s = Asks-here 0 s _ refl refl
  Asks-deref (some a) s = Asks-here 0 s _ refl refl

  Asks-index_at : {A : Type 0} (xs : List A) (i : ℕ) (s : System W) → Asks 0 s (index_at xs i s)
  Asks-index_at xs i s = Asks-here 0 s _ (ground arith) (ground arith)

  Asks-link : (p : ℕ) (s : System W) → Asks 1 s (call {E = InitError} (d.link_get_nowait p) s)
  Asks-link p s = record { few = omega (arith, c.asked_lem p s.world); ends = refl }

  -- What follows an answer.
  abbrev unknown : Bool → ℤ × Link → Cmd InitError (System W) Bool
  unknown f r =
      if eq_ℤ r.0 neg_enodev then fail bad_link_port else ok (not f && (r.1.link_status == 0))

  abbrev answered : Bool → ℤ × Link → Cmd InitError (System W) Bool
  answered f r = if eq_ℤ r.0 neg_enotsup then fail link_unsupported else unknown f r

  answered-Asks : (f : Bool) (r : ℤ × Link) (s : System W) → Asks 0 s (answered f r s)
  answered-Asks f r s =
      Asks-if (eq_ℤ r.0 neg_enotsup) 0 (fail link_unsupported) (unknown f r) s
        (Asks-here 0 s _ refl refl)
        (Asks-if (eq_ℤ r.0 neg_enodev) 0 (fail bad_link_port) (ok (not f && (r.1.link_status == 0)))
          s (Asks-here 0 s _ refl refl) (Asks-here 0 s _ refl refl))

  check_port-Asks : (f : Bool) (i : ℕ) (s : System W) → Asks 1 s (check_port d mask f i s)
  unfolding check_port
  check_port-Asks f i s = Asks-bind 0 1 s _ _ (Asks-deref s.global.ports s) λ ports s.
      Asks-bind 0 1 s _ _ (Asks-index_at ports.id i s) λ id s.
        Asks-if (leb 64 id) 1 _ _ s (Asks-here 1 s _ refl refl) (
          Asks-if (bit_and mask (2 ^ id) == 0) 1 _ _ s (Asks-here 1 s _ refl refl)
            (Asks-bind 1 0 s _ (answered f) (Asks-link id s) (answered-Asks f)))

  check_ports-Asks : (f : Bool) (n i : ℕ) (s : System W) → Asks n s (check_ports d mask f n i s)
  unfolding check_ports
  check_ports-Asks f zero i s = Asks-here 0 s _ refl refl
  check_ports-Asks f (suc n) i s = Asks-as (1 + n) (suc n) s _ (omega arith) (
      Asks-bind 1 n s _ _ (check_port-Asks f i s)
        λ down s. Asks-if down n _ _ s (Asks-here n s _ refl refl) (check_ports-Asks f n (suc i) s))

  wait-Asks :
      (up : Bool) (s : System W)
      → Asks 0 s ((if up then skip {E = InitError} else effect (d.delay_us_sleep check_interval)) s)
  wait-Asks up s =
      Asks-if up 0 skip (effect (d.delay_us_sleep check_interval)) s (Asks-here 0 s _ refl refl)
        (record { few = omega (arith, c.delay_lem check_interval s.world); ends = refl })

  check_rounds-Asks :
      (port_num n count : ℕ) (f : Bool) (s : System W)
      → Asks (n * port_num) s (check_rounds d mask port_num n count f s)
  unfolding check_rounds
  check_rounds-Asks port_num zero count f s = Asks-here (0 * port_num) s _ refl refl
  check_rounds-Asks port_num (suc n) count f s =
      Asks-as (port_num + n * port_num) (suc n * port_num) s _ (omega arith) (
        Asks-bind port_num (n * port_num) s _ _ (check_ports-Asks f port_num 0 s) λ up s.
          Asks-if f (n * port_num) _ _ s (Asks-here (n * port_num) s _ refl refl) (
            Asks-as (0 + n * port_num) (n * port_num) s _ (omega arith) (
              Asks-bind 0 (n * port_num) s _ _ (wait-Asks up s) λ u s.
                check_rounds-Asks port_num n (suc count) (not up || (count == max_check_time - 1))
                  s)))

  -- Whatever the device answers, the check of the links of a manager with ports ends, and has asked
  -- for links at most 90 times as often as there are ports.
  pub links_bounded :
      (ports : PortInfo) (s : System W)
      → s.global.ports ≡ some ports
      → (c.asked (final (check_all_ports_link_status d mask s)).world
          ≤ c.asked s.world + 90 * ports.num_ports)
        × (is_running (check_all_ports_link_status d mask s) ≡ false)
  unfolding check_all_ports_link_status
  links_bounded ports s there =
      let a =
        subst (Asks (90 * ports.num_ports) s) (sym (bind_ok _ (deref_ok s there)))
          (check_rounds-Asks ports.num_ports 90 0 false s) in
      (a.few, a.ends)
