-- ===== src/Tests/Sending.antt =====
-- A message that is sent, at a concrete input: rings that are lists, and a heap.
use rust_onvm_v.Base.{
  ◌≡◌, refl, arith, [], ◌∷◌, ◌++◌, ok, pos, some, Bool, true, false, ◌==◌, if◌then◌else◌,
}
use rust_onvm_v.Nflib.Structs.Packets.{Ptr}
use rust_onvm_v.Nflib.Structs.Nf.{Ring, nf_stopping}
use rust_onvm_v.Mgr.System.{System}
use rust_onvm_v.Mgr.Nf.Dpdk.{NfDpdk, SendLaws}
use rust_onvm_v.Mgr.Nf.Messages.{onvm_nf_send_msg}
use rust_onvm_v.Mgr.Nf.Messages.Sent.{Receiver, send_msg-dangles}
use rust_onvm_v.Tests.Worlds.{Rings, put, put_self, no_packets, one_running}

-- The rings, and which addresses are in use.
abbrev Heap : Type 0
Heap = Rings × (Ptr → Bool)

abbrev now : Bool → Ptr → Heap → Heap
now used p w = (w.0, λ q. if p == q then used else w.1 q)

-- Each message is put at the address 4000.
abbrev heap_dpdk : NfDpdk Heap
heap_dpdk = record {
  ring_count = λ r w. 0;
  ring_dequeue_bulk = λ r n w. (0, w);
  ring_dequeue_burst = λ r n w. (0, w);
  ring_dequeue = λ r w. ((pos 1, 0), w);
  ring_enqueue = λ r p w. (pos 0, (put w.0 r (w.0 r ++ p ∷ []), w.1));
  mempool_lookup = λ name w. some 7;
  mempool_get = λ pool w. (pos 0, w);
  mempool_put = λ pool p w. w;
  pktmbuf_free = λ p w. w;
  free_tag = λ t w. w;
  box_new = λ m w. (4000, now true 4000 w);
  box_drop = λ p w. now false p w;
}

now_self : (used : Bool) (p : Ptr) (w : Heap) → (now used p w).1 p ≡ used
now_self used p w = ground arith

abbrev heap_laws : SendLaws heap_dpdk
heap_laws = record {
  contents = λ r w. w.0 r;
  live = λ w p. w.1 p;
  enqueue_put = λ r p w e. put_self w.0 r (w.0 r ++ p ∷ []);
  get_contents = λ r m w. refl;
  new_contents = λ r m w. refl;
  drop_contents = λ r p w. refl;
  new_live = λ m w. refl;
  drop_live = λ p w. now_self false p w;
}

abbrev before : System Heap
before = record {
  global = record (one_running.global) { nf_msg_pool = some 7 };
  nf_mem = one_running.nf_mem;
  core_mem = one_running.core_mem;
  world = (no_packets, λ p. false);
}

abbrev after : System Heap
after = record before {
  world = now false 4000 (put no_packets 12 (4000 ∷ []), λ q. if 4000 == q then true else false);
}

sent : onvm_nf_send_msg heap_dpdk 1 (nf_stopping 1001) before ≡ ok (pos 0) after
unfolding onvm_nf_send_msg
sent = refl

send_msg-dangles_example :
    (q : Ring) × Receiver before 1 q
    × (after.world.0 q ≡ no_packets q ++ 4000 ∷ [])
    × (after.world.1 4000 ≡ false)
send_msg-dangles_example =
    send_msg-dangles heap_dpdk heap_laws 1 (nf_stopping 1001) before after sent
