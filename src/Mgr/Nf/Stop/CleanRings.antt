-- ===== src/Mgr/Nf/Stop/CleanRings.antt =====
-- The rings of an NF that is stopped, for `onvm_nf_stop` of onvm_mgr/src/mgr/net_funcs.rs.
use native.Mathlib.Decide.{ℕ_discrete}
use native.Mathlib.Nat.{le_trans}
use rust_onvm_v.Base.{
  ℕ, suc, ◌≤◌, ◌<◌, ◌≡◌, ◌∙◌, ap, refl, arith, [], Option, some, ok, panic, index_out_of_bounds,
  length, get_elem?, length-drop, bind_ok, bind_panic, index_at_ok, deref_ok, final, Run,
}
use rust_onvm_v.Nflib.Constants.{packet_read_size, nf_msg_pool_name}
use rust_onvm_v.Nflib.Structs.Packets.{Ptr}
use rust_onvm_v.Nflib.Structs.Nf.{Ring, OnvmNf}
use rust_onvm_v.Mgr.Global.{Pool}
use rust_onvm_v.Mgr.System.{System}
use rust_onvm_v.Mgr.Nf.Dpdk.{NfDpdk, RingLaws, NoFuller}
use rust_onvm_v.Mgr.Nf.Start.{NfError}
use rust_onvm_v.Mgr.Nf.Stop.Drain.{
  drain_ring_nil, drain_msgs-empties, drain_msgs-NoFuller, nil_of_length,
}
use rust_onvm_v.Mgr.Nf.Stop.{clean_rings, drain_ring, drain_msg_ring}

-- An NF whose three rings exist, of which the two for packets are empty, and that has fewer
-- messages waiting than the fuel.
pub record HasCleanRings {W : Type 0} (d : NfDpdk W) (l : RingLaws d) (fuel : ℕ) (nf : OnvmNf)
    (w : W) : Type 0 where
  pub rx : Ring
  pub tx : Ring
  pub msg : Ring
  pub rx_q : nf.rx_q ≡ some rx
  pub tx_q : nf.tx_q ≡ some tx
  pub msg_q : nf.msg_q ≡ some msg
  pub rx_empty : l.contents rx w ≡ []
  pub tx_empty : l.contents tx w ≡ []
  pub msgs_few : length (l.contents msg w) < fuel

module _ {W : Type 0} (d : NfDpdk W) (l : RingLaws d) where
  abbrev pub burst : Ring → W → W
  burst r w = (d.ring_dequeue_burst r packet_read_size w).1

  -- A burst adds nothing to any ring.
  burst_le : (r q : Ring) (w : W) → length (l.contents q (burst r w)) ≤ length (l.contents q w)
  burst_le r q w = elim (ℕ_discrete r q) [
    | yes e ↦ omega (
      arith,
      ap (λ x. length (l.contents x (burst r w))) e,
      ap (λ x. length (l.contents x w)) e,
      ap length (l.burst_rest r packet_read_size w),
      length-drop packet_read_size (l.contents r w),
    )
    | no ne ↦ omega (arith, ap length (l.burst_other r q packet_read_size w ne))
  ]

  drain_empty :
      (fuel : ℕ) {o : Option Ring} {ring : Ring} (s : System W)
      → o ≡ some ring
      → l.contents ring s.world ≡ []
      → drain_ring d (suc fuel) o s ≡ ok tt (record s { world = burst ring s.world })
  drain_empty fuel {ring} s found e =
      ap (λ o. drain_ring d (suc fuel) o s) found ∙ drain_ring_nil d l fuel ring s ∙ rw e

  pub clean_rings_lem :
      (fuel nf_id : ℕ) (p : Ptr) (nf : OnvmNf) (pool : Pool) (s : System W)
      → get_elem? s.global.nfs nf_id ≡ some p
      → s.nf_mem p ≡ some nf
      → HasCleanRings d l (suc fuel) nf s.world
      → ((w : W) → d.mempool_lookup nf_msg_pool_name w ≡ some pool)
      → (w : W) × (clean_rings d (suc fuel) nf_id s
          ≡ ok tt (record s { world = w; global = record (s.global) { nf_msg_pool = some pool } }))
        × NoFuller l s.world w
  unfolding clean_rings drain_msg_ring
  clean_rings_lem fuel nf_id p nf pool s slot here clean found =
      let s1 : System W = record s { world = burst clean.rx s.world } in
      let s2 : System W = record s { world = burst clean.tx s1.world } in
      let s3 : System W = record s2 { global = record (s.global) { nf_msg_pool = some pool } } in
      let tx_left = burst_le clean.rx clean.tx s.world in
      let few =
        le_trans (burst_le clean.tx clean.msg s1.world) (burst_le clean.rx clean.msg s.world) in
      let (w, e, empty) =
        drain_msgs-empties d l (suc fuel) pool clean.msg s3 (l.contents clean.msg s2.world) refl
          (omega (arith, few, clean.msgs_few)) in
      (
        w,
        bind_ok _ (index_at_ok s.global.nfs nf_id s slot)
            ∙ bind_ok _ (deref_ok s here)
            ∙ bind_ok _ (drain_empty fuel s clean.rx_q clean.rx_empty)
            ∙ bind_ok _ (index_at_ok s.global.nfs nf_id s1 slot)
            ∙ bind_ok _ (deref_ok s1 here)
            ∙ bind_ok _ (
                drain_empty fuel s1 clean.tx_q
                  (nil_of_length _ (omega (arith, tx_left, ap length clean.tx_empty))))
            ∙ bind_ok _ (deref_ok s2 (found s2.world))
            ∙ bind_ok _ (index_at_ok s.global.nfs nf_id s3 slot)
            ∙ bind_ok _ (deref_ok s3 here)
            ∙ ap (λ q. drain_msg_ring d (suc fuel) pool q s3) clean.msg_q
            ∙ e,
        λ q. omega (
          arith,
          burst_le clean.rx q s.world,
          burst_le clean.tx q s1.world,
          drain_msgs-NoFuller d l (suc fuel) pool clean.msg s3 q,
          ap (λ (r : Run NfError (System W) (Unit {0})). length (l.contents q (final r).world)) e,
        ),
      )

  -- A packet in the rx ring stops the cleaning at the first index.
  pub clean_rings_panics :
      (fuel nf_id : ℕ) (p : Ptr) (nf : OnvmNf) (rx : Ring) (s : System W)
      → get_elem? s.global.nfs nf_id ≡ some p
      → s.nf_mem p ≡ some nf
      → nf.rx_q ≡ some rx
      → 0 < length (l.contents rx s.world)
      → clean_rings d (suc fuel) nf_id s
        ≡ panic index_out_of_bounds (record s { world = burst rx s.world })
  unfolding clean_rings
  clean_rings_panics fuel nf_id p nf rx s slot here ring waiting =
      bind_ok _ (index_at_ok s.global.nfs nf_id s slot)
      ∙ bind_ok _ (deref_ok s here)
      ∙ bind_panic _
          (ap (λ o. drain_ring d (suc fuel) o s) ring ∙ drain_ring_nil d l fuel rx s ∙ ground arith)
