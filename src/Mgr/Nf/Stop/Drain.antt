-- ===== src/Mgr/Nf/Stop/Drain.antt =====
-- The drain loops of `onvm_nf_stop`, over rings that behave as DPDK documents.
use native.Mathlib.Decide.{ℕ_discrete}
use rust_onvm_v.Base.{
  ℕ, zero, suc, ◌≤◌, ◌<◌, ◌≡◌, ◌≢◌, refl, arith, List, [], ◌∷◌, some, ok, panic,
  index_out_of_bounds, length, ◌==◌, if◌then◌else◌, eq_ℤ, pos, final, Bool-cases, inl, inr, negsuc,
  ap, ◌∙◌, ℤ, false,
}
use rust_onvm_v.Nflib.Constants.{packet_read_size}
use rust_onvm_v.Nflib.Structs.Packets.{Ptr}
use rust_onvm_v.Nflib.Structs.Nf.{Ring}
use rust_onvm_v.Mgr.Global.{Pool}
use rust_onvm_v.Mgr.System.{System}
use rust_onvm_v.Mgr.Nf.Dpdk.{NfDpdk, RingLaws, NoFuller}
use rust_onvm_v.Mgr.Nf.Stop.{free_pkts, drain_loop, drain_ring, drain_msgs}

pub nil_of_length {ℓ} : {A : Type ℓ} (xs : List A) → length xs ≡ 0 → xs ≡ []
nil_of_length [] h = refl
nil_of_length (x ∷ xs) h = absurd (omega arith)

zero_code : (c : ℤ) → c ≢ pos 0 → eq_ℤ c (pos 0) ≡ false
zero_code (pos zero) ne = absurd (ne refl)
zero_code (pos (suc n)) ne = ground arith
zero_code (negsuc n) ne = refl

module _ {W : Type 0} (d : NfDpdk W) (l : RingLaws d) where
  abbrev after_burst : Ring → System W → System W
  after_burst ring s = record s { world = (d.ring_dequeue_burst ring packet_read_size s.world).1 }

  -- An empty ring passes, and a ring that
  -- holds a packet makes the index of the first packet panic.
  pub drain_ring_nil :
      (fuel : ℕ) (ring : Ring) (s : System W)
      → drain_ring d (suc fuel) (some ring) s ≡ (
          if length (l.contents ring s.world) == 0
          then ok tt (after_burst ring s)
          else panic index_out_of_bounds (after_burst ring s))
  unfolding drain_ring drain_loop free_pkts
  drain_ring_nil fuel ring s = ground (arith, l.burst_count ring packet_read_size s.world)

  -- Draining a ring of fewer messages than the fuel ends, and the ring is empty then.
  pub drain_msgs-empties :
      (fuel : ℕ) (pool : Pool) (ring : Ring) (s : System W) (ms : List Ptr)
      → l.contents ring s.world ≡ ms
      → length ms < fuel
      → (w : W) × (drain_msgs d fuel pool ring s ≡ ok tt (record s { world = w }))
        × (l.contents ring w ≡ [])
  unfolding drain_msgs
  drain_msgs-empties zero pool ring s ms held enough = absurd (omega arith)
  drain_msgs-empties (suc fuel) pool ring s [] held enough =
      let (code, rest) = l.dequeue_nil ring s.world held in
      (
        (d.ring_dequeue ring s.world).1,
        ground (arith, zero_code (d.ring_dequeue ring s.world).0.0 code),
        rest,
      )
  drain_msgs-empties (suc fuel) pool ring s (m ∷ ms) held enough =
      let (got, rest) = l.dequeue_cons ring s.world m ms held in
      let t : System W = record s {
        world = d.mempool_put pool m (d.ring_dequeue ring s.world).1;
      } in
      let (w, e, empty) =
        drain_msgs-empties fuel pool ring t ms
          (l.put_contents ring pool m (d.ring_dequeue ring s.world).1 ∙ rest) (omega arith) in
      (w, (ground (arith, got)) ∙ e, empty)

  dequeue_self :
      (r : Ring) (w : W) (ms : List Ptr)
      → l.contents r w ≡ ms
      → length (l.contents r (d.ring_dequeue r w).1) ≤ length (l.contents r w)
  dequeue_self r w [] held = omega (arith, ap length (l.dequeue_nil r w held).1)
  dequeue_self r w (m ∷ ms) held =
      omega (arith, ap length held, ap length (l.dequeue_cons r w m ms held).1)

  dequeue_le :
      (r q : Ring) (w : W) → length (l.contents q (d.ring_dequeue r w).1) ≤ length (l.contents q w)
  dequeue_le r q w = elim (ℕ_discrete r q) [
    | yes e ↦ omega (
      arith,
      dequeue_self r w (l.contents r w) refl,
      ap (λ x. length (l.contents x (d.ring_dequeue r w).1)) e,
      ap (λ x. length (l.contents x w)) e,
    )
    | no ne ↦ omega (arith, ap length (l.dequeue_other r q w ne))
  ]

  -- Taking the messages off a ring fills no ring, however it ends.
  pub drain_msgs-NoFuller :
      (fuel : ℕ) (pool : Pool) (ring : Ring) (s : System W)
      → NoFuller l s.world (final (drain_msgs d fuel pool ring s)).world
  unfolding drain_msgs
  drain_msgs-NoFuller zero pool ring s q = omega arith
  drain_msgs-NoFuller (suc fuel) pool ring s q =
      let w = (d.ring_dequeue ring s.world).1 in
      let m = (d.ring_dequeue ring s.world).0.1 in
      let t : System W = record s { world = d.mempool_put pool m w } in
      let one = dequeue_le ring q s.world in
      let more = drain_msgs-NoFuller fuel pool ring t q in
      elim (Bool-cases (eq_ℤ (d.ring_dequeue ring s.world).0.0 (pos 0))) [
        | inl found ↦ rw found (omega (arith, one, more, ap length (l.put_contents q pool m w)))
        | inr done ↦ rw done one
      ]
