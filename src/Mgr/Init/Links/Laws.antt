-- ===== src/Mgr/Init/Links/Laws.antt =====
-- How long the check of the links goes on.
use Prim.Native.Nat.{bit_and}
use mathlib.Core.List.{append-nil, append_assoc}
use rust_onvm_v.Base.{
  ℕ, zero, suc, ◌+◌, ◌-◌, ◌^◌, List, [], ◌∷◌, ◌++◌, sym, ◌≡◌, ◌∙◌, ap, refl, arith, Option, some,
  none, pos, ok, deref_ok, index_at_ok, bind_ok, leb, ◌==◌, ◌&&◌, not, if◌then◌else◌, Bool, true,
  false, get_elem?, Bool-cases, inl, inr, Option-cases,
}
use rust_onvm_v.Nflib.Structs.Ports.{PortInfo}
use rust_onvm_v.Mgr.System.{System}
use rust_onvm_v.Mgr.Init.Dpdk.{InitDpdk}
use rust_onvm_v.Mgr.Init.Links.{
  check_port, check_ports, check_rounds, check_all_ports_link_status, max_check_time,
}

-- A device that answers without an error whenever it is asked for a link, and a list of the ports
-- that it was asked for, the last one at the end.
pub record Answers {W : Type 0} (d : InitDpdk W) : Type 0 where
  pub asked : W → List ℕ
  pub answer : (p : ℕ) (w : W) → (d.link_get_nowait p w).0.0 ≡ pos 0
  pub asked_lem : (p : ℕ) (w : W) → asked (d.link_get_nowait p w).1 ≡ asked w ++ p ∷ []
  pub delay_lem : (n : ℕ) (w : W) → asked (d.delay_us_sleep n w) ≡ asked w

-- The ids of those of `n` ports from the `i`th on that are in the mask; `none` where an id cannot be read or shifted by.
unfoldable pub selected : ℕ → PortInfo → ℕ → ℕ → Option (List ℕ)
selected mask ports zero i = some []
selected mask ports (suc n) i = elim (get_elem? ports.id i) [
  | none ↦ none
  | some id ↦ if leb 64 id then none else elim (selected mask ports n (suc i)) [
    | none ↦ none
    | some ids ↦ some (if bit_and mask (2 ^ id) == 0 then ids else id ∷ ids)
  ]
]

-- A list `n` times, one after the other.
unfoldable pub times : ℕ → List ℕ → List ℕ
times zero ids = []
times (suc n) ids = ids ++ times n ids

module _ {W : Type 0} (d : InitDpdk W) (mask : ℕ) (l : Answers d) (ports : PortInfo) where
  -- No answer makes a round with the flag `f` break off.
  abbrev GoesOn : Bool → Type 0
  GoesOn f = (p : ℕ) (w : W) → (not f && ((d.link_get_nowait p w).0.1.link_status == 0)) ≡ false

  -- The world after a port was looked at.
  abbrev looked : ℕ → System W → System W
  looked id s =
      if bit_and mask (2 ^ id) == 0
      then s
      else record s { world = (d.link_get_nowait id s.world).1 }

  check_port_up :
      (f : Bool) (i id : ℕ) (s : System W)
      → GoesOn f
      → s.global.ports ≡ some ports
      → get_elem? ports.id i ≡ some id
      → leb 64 id ≡ false
      → check_port d mask f i s ≡ ok false (looked id s)
  unfolding check_port
  check_port_up f i id s on there slot small =
      bind_ok _ (deref_ok s there)
      ∙ bind_ok _ (index_at_ok ports.id i s slot)
      ∙ ground (arith, l.answer id s.world, on id s.world)

  looked-asked :
      (id : ℕ) (s : System W) (js : List ℕ)
      → l.asked (looked id s).world ++ js
        ≡ l.asked s.world ++ (if bit_and mask (2 ^ id) == 0 then js else id ∷ js)
  looked-asked id s js = elim (Bool-cases (bit_and mask (2 ^ id) == 0)) [
    | inl out ↦ rw out refl
    | inr in_mask ↦
        rw in_mask (
          ap (λ xs. xs ++ js) (l.asked_lem id s.world)
          ∙ append_assoc (l.asked s.world) (id ∷ []) js)
  ]

  check_ports_up :
      (f : Bool) (n i : ℕ) (ids : List ℕ) (s : System W)
      → GoesOn f
      → s.global.ports ≡ some ports
      → selected mask ports n i ≡ some ids
      → (w : W) × (check_ports d mask f n i s ≡ ok true (record s { world = w }))
        × (l.asked w ≡ l.asked s.world ++ ids)
  unfolding check_ports selected
  check_ports_up f zero i ids s on there e =
      (s.world, refl, sym (append-nil (l.asked s.world)) ∙ ap (λ ys. l.asked s.world ++ ys) (cc))
  check_ports_up f (suc n) i ids s on there e = elim (Option-cases (get_elem? ports.id i)) [
    | inl no_id ↦ ground arith
    | inr (id, slot) ↦ elim (Bool-cases (leb 64 id)) [
      | inl big ↦ ground arith
      | inr small ↦ elim (Option-cases (selected mask ports n (suc i))) [
        | inl no_rest ↦ ground arith
        | inr (j, rest) ↦
            let (w, e1, more) = check_ports_up f n (suc i) j (looked id s) on (ground arith) rest in
            (
              w,
              bind_ok _ (check_port_up f i id s on there slot small) ∙ e1 ∙ ground arith,
              more ∙ looked-asked id s j ∙ ap (λ ys. l.asked s.world ++ ys) (ground arith),
            )
      ]
    ]
  ]

  later_round :
      (count n : ℕ) → count + suc (suc n) ≡ max_check_time → (count == max_check_time - 1) ≡ false
  later_round count n h = ground arith

  rounds_up :
      (n count : ℕ) (ids : List ℕ) (s : System W)
      → GoesOn false
      → s.global.ports ≡ some ports
      → selected mask ports ports.num_ports 0 ≡ some ids
      → count + n ≡ max_check_time
      → (w : W) × (check_rounds d mask ports.num_ports n count false s
          ≡ ok tt (record s { world = w }))
        × (l.asked w ≡ l.asked s.world ++ times n ids)
  unfolding check_rounds times
  rounds_up zero count ids s on there e h = (s.world, refl, sym (append-nil (l.asked s.world)))
  rounds_up (suc zero) count ids s on there e h =
      let (w, e1, more) = check_ports_up false ports.num_ports 0 ids s on there e in
      (w, bind_ok _ e1, more ∙ ap (λ ys. l.asked s.world ++ ys) (sym (append-nil ids)))
  rounds_up (suc (suc n)) count ids s on there e h =
      let (w, e1, more) = check_ports_up false ports.num_ports 0 ids s on there e in
      let (w2, e2, more2) =
        rounds_up (suc n) (suc count) ids (record s { world = w }) on there e (omega (arith, h)) in
      (
        w2,
        bind_ok _ e1
            ∙ ap
                (λ b.
                  check_rounds d mask ports.num_ports (suc n) (suc count) b
                    (record s { world = w }))
                (later_round count n h)
            ∙ e2,
        more2 ∙ ap (λ xs. xs ++ times (suc n) ids) more ∙ append_assoc (l.asked s.world) ids _,
      )

  -- Where all links are up, no call fails and all ids can be read, the check passes, but not before its last round: it
  -- asks for the links of the ports of the mask, by their ids and in their order, 90 times over.
  pub links_up :
      (ids : List ℕ) (s : System W)
      → ((p : ℕ) (w : W) → ((d.link_get_nowait p w).0.1.link_status == 0) ≡ false)
      → s.global.ports ≡ some ports
      → selected mask ports ports.num_ports 0 ≡ some ids
      → (w : W) × (check_all_ports_link_status d mask s ≡ ok tt (record s { world = w }))
        × (l.asked w ≡ l.asked s.world ++ times 90 ids)
  unfolding check_all_ports_link_status
  links_up ids s on there e =
      let (w, e1, more) = rounds_up 90 0 ids s on there e refl in
      (w, bind_ok _ (deref_ok s there) ∙ e1, more)
