-- ===== src/Mgr/Init/Zones/Laws.antt =====
-- How far the memory zones of `init`, onvm_mgr/src/mgr/init.rs, get.
use rust_onvm_v.Base.{
  ℕ, zero, suc, ◌+◌, ◌*◌, ◌≡◌, ◌∙◌, ap, arith, none, Run, ok, fault, exit, Bool, Bool-cases, inl,
  inr, length, refl, final, true, false, if◌then◌else◌, bind_ok, and_then, Cmd,
}
use rust_onvm_v.Nflib.Constants.{max_nfs}
use rust_onvm_v.Mgr.System.{System}
use rust_onvm_v.Mgr.Init.Dpdk.{InitDpdk, mz_nf_info, mz_port_info}
use rust_onvm_v.Mgr.Init.Pools.{Sizes}
use rust_onvm_v.Mgr.Init.Port.{InitError}
use rust_onvm_v.Mgr.Init.Zones.{pointers, reserve, drop_old, nf_zone, port_zone, init_zones}

pub length-pointers : (n sz addr : ℕ) → length (pointers n sz addr) ≡ n
unfolding pointers
length-pointers zero sz addr = refl
length-pointers (suc n) sz addr = ap suc (length-pointers n sz (addr + sz))

bind_exit :
    {E S A B : Type 0} {r : Run E S A} {t : S} (k : A → Cmd E S B)
    → r ≡ exit t
    → and_then r k ≡ exit t
bind_exit k e = ap (λ x. and_then x k) e

bind_fault :
    {E S A B : Type 0} {r : Run E S A} {t : S} (k : A → Cmd E S B)
    → r ≡ fault t
    → and_then r k ≡ fault t
bind_fault k e = ap (λ x. and_then x k) e

module _ {W : Type 0} (d : InitDpdk W) (z : Sizes) where
  -- The worlds after the first request for a zone and after the second, and what they answer.
  abbrev pub first : W → Bool × W
  first w = d.memzone_reserve mz_nf_info (z.nf * max_nfs) w

  abbrev pub second : W → Bool × W
  second w = d.memzone_reserve mz_port_info z.port_info (first w).1

  -- The state with the slots of the NFs, in a world.
  abbrev pub with_slots : System W → W → System W
  with_slots s w = record s {
    global = record (s.global) { nfs = pointers max_nfs z.nf 0 };
    world = w;
  }

  -- The end of the zones, by the answers to the first two requests.
  abbrev pub zones_end : Bool → Bool → System W → Run InitError (System W) (Unit {0})
  zones_end one two s =
      if one
      then if two
        then fault (with_slots s (second s.world).1)
        else exit (with_slots s (second s.world).1)
      else exit (record s { world = (first s.world).1 })

  -- Nothing follows the zones.
  pub zones_end-lost :
      (one two : Bool) (s : System W) (k : Unit {0} → Cmd InitError (System W) (Unit {0}))
      → and_then (zones_end one two s) k ≡ zones_end one two s
  zones_end-lost true true s k = refl
  zones_end-lost true false s k = refl
  zones_end-lost false two s k = refl

  -- Past the first zone the slots are set up.
  pub zones_end-slots :
      (two : Bool) (s : System W)
      → (final (zones_end true two s)).global.nfs ≡ pointers max_nfs z.nf 0
  zones_end-slots true s = refl
  zones_end-slots false s = refl

  module _ (cores : ℕ) where
    nf_zone_lem :
        (s : System W)
        → nf_zone d z cores s ≡ (
            if (first s.world).0
            then ok tt (with_slots s (first s.world).1)
            else exit (record s { world = (first s.world).1 }))
    unfolding nf_zone reserve
    nf_zone_lem s = ground arith

    port_zone_lem :
        (s : System W)
        → s.global.ports ≡ none
        → port_zone d z cores s ≡ (
            if (d.memzone_reserve mz_port_info z.port_info s.world).0
            then fault (record s { world = (d.memzone_reserve mz_port_info z.port_info s.world).1 })
            else exit (record s { world = (d.memzone_reserve mz_port_info z.port_info s.world).1 }))
    unfolding port_zone reserve drop_old
    port_zone_lem s null = ground arith

    -- A manager that has no ports yet never gets past the zone of the ports: it exits where one of
    -- the first two zones cannot be had, and writes in front of a null pointer where both can.
    pub init_zones_lem :
        (s : System W)
        → s.global.ports ≡ none
        → init_zones d z cores s ≡ zones_end (first s.world).0 (second s.world).0 s
    unfolding init_zones
    init_zones_lem s null = elim (Bool-cases (first s.world).0) [
      | inl got ↦
          let e1 : nf_zone d z cores s ≡ ok tt (with_slots s (first s.world).1) =
            nf_zone_lem s ∙ rw got refl in
          bind_ok _ e1 ∙ elim (Bool-cases (second s.world).0) [
            | inl also ↦
                bind_fault {t = with_slots s (second s.world).1} _
                  (port_zone_lem (with_slots s (first s.world).1) null ∙ rw also refl)
                ∙ rw (got, also) refl
            | inr none_left ↦
                bind_exit {t = with_slots s (second s.world).1} _
                  (port_zone_lem (with_slots s (first s.world).1) null ∙ rw none_left refl)
                ∙ rw (got, none_left) refl
          ]
      | inr none_left ↦
          bind_exit {t = record s { world = (first s.world).1 }} _
            (nf_zone_lem s ∙ rw none_left refl)
          ∙ rw none_left refl
    ]
