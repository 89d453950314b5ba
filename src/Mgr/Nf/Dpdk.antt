-- ===== src/Mgr/Nf/Dpdk.antt =====
-- The DPDK calls of onvm_mgr/src/mgr/net_funcs.rs, which are a parameter, with the documented
-- behaviour of the rings that the theorems rely on.
use rust_onvm_v.Base.{
  ℕ, ◌≤◌, ◌≡◌, ◌≢◌, List, [], ◌∷◌, ◌++◌, Bool, true, false, Option, ℤ, pos, length, drop, min,
}
use rust_onvm_v.Nflib.Constants.{PoolName}
use rust_onvm_v.Nflib.Structs.Packets.{Ptr, Mbuf}
use rust_onvm_v.Nflib.Structs.Nf.{Ring, OnvmNfMsg}
use rust_onvm_v.Mgr.Global.{Pool}

-- `dequeue_bulk` and `dequeue_burst` return how many objects they took off the ring. The caller
-- hands them the address of a temporary, so no vector of its own is changed. `dequeue` returns its
-- code and the object. `box_new` and `box_drop` are the allocator of the program, for a message on
-- the heap.
pub record NfDpdk (W : Type 0) : Type 0 where
  pub ring_count : Ring → W → ℕ
  pub ring_dequeue_bulk : Ring → ℕ → W → ℕ × W
  pub ring_dequeue_burst : Ring → ℕ → W → ℕ × W
  pub ring_dequeue : Ring → W → (ℤ × Ptr) × W
  pub ring_enqueue : Ring → Ptr → W → ℤ × W
  pub mempool_lookup : PoolName → W → Option Pool
  pub mempool_get : Pool → W → ℤ × W
  pub mempool_put : Pool → Ptr → W → W
  pub pktmbuf_free : Mbuf → W → W
  pub free_tag : List ℕ → W → W
  pub box_new : OnvmNfMsg → W → Ptr × W
  pub box_drop : Ptr → W → W

-- `contents r w` is what the ring `r` holds, oldest first. Only the calls on a ring change it.
pub record RingLaws {W : Type 0} (d : NfDpdk W) : Type 0 where
  pub contents : Ring → W → List Ptr
  pub count_lem : (r : Ring) (w : W) → d.ring_count r w ≡ length (contents r w)
  pub bulk_count :
      (r : Ring) (w : W)
      → (d.ring_dequeue_bulk r (length (contents r w)) w).0 ≡ length (contents r w)
  pub burst_count :
      (r : Ring) (n : ℕ) (w : W) → (d.ring_dequeue_burst r n w).0 ≡ min n (length (contents r w))
  pub burst_rest :
      (r : Ring) (n : ℕ) (w : W) → contents r (d.ring_dequeue_burst r n w).1 ≡ drop n (contents r w)
  pub burst_other :
      (r q : Ring) (n : ℕ) (w : W)
      → r ≢ q
      → contents q (d.ring_dequeue_burst r n w).1 ≡ contents q w
  pub dequeue_nil :
      (r : Ring) (w : W)
      → contents r w ≡ []
      → ((d.ring_dequeue r w).0.0 ≢ pos 0) × (contents r (d.ring_dequeue r w).1 ≡ [])
  pub dequeue_cons :
      (r : Ring) (w : W) (p : Ptr) (ps : List Ptr)
      → contents r w ≡ p ∷ ps
      → ((d.ring_dequeue r w).0 ≡ (pos 0, p)) × (contents r (d.ring_dequeue r w).1 ≡ ps)
  pub dequeue_other :
      (r q : Ring) (w : W) → r ≢ q → contents q (d.ring_dequeue r w).1 ≡ contents q w
  pub put_contents :
      (r : Ring) (m : Pool) (p : Ptr) (w : W) → contents r (d.mempool_put m p w) ≡ contents r w
  pub free_contents : (r : Ring) (m : Mbuf) (w : W) → contents r (d.pktmbuf_free m w) ≡ contents r w
  pub free_tag_contents :
      (r : Ring) (t : List ℕ) (w : W) → contents r (d.free_tag t w) ≡ contents r w

-- `contents r w` is what the ring `r` holds, oldest first, and `live w p` says whether the address `p`
-- is that of memory in use. A ring that accepts an object holds it last; the allocator touches no
-- ring, and neither does a request to a pool.
pub record SendLaws {W : Type 0} (d : NfDpdk W) : Type 0 where
  pub contents : Ring → W → List Ptr
  pub live : W → Ptr → Bool
  pub enqueue_put :
      (r : Ring) (p : Ptr) (w : W)
      → (d.ring_enqueue r p w).0 ≡ pos 0
      → contents r (d.ring_enqueue r p w).1 ≡ contents r w ++ p ∷ []
  pub get_contents : (r : Ring) (m : Pool) (w : W) → contents r (d.mempool_get m w).1 ≡ contents r w
  pub new_contents :
      (r : Ring) (m : OnvmNfMsg) (w : W) → contents r (d.box_new m w).1 ≡ contents r w
  pub drop_contents : (r : Ring) (p : Ptr) (w : W) → contents r (d.box_drop p w) ≡ contents r w
  pub new_live : (m : OnvmNfMsg) (w : W) → live (d.box_new m w).1 (d.box_new m w).0 ≡ true
  pub drop_live : (p : Ptr) (w : W) → live (d.box_drop p w) p ≡ false

-- No ring holds more in the world `v` than in the world `w`.
abbrev pub NoFuller : {W : Type 0} {d : NfDpdk W} → RingLaws d → W → W → Type 0
NoFuller l w v = (q : Ring) → length (l.contents q v) ≤ length (l.contents q w)
