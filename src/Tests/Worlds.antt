-- ===== src/Tests/Worlds.antt =====
-- A concrete DPDK whose rings are lists, and small states of the manager, for the tests.
use rust_onvm_v.Base.{
  ℕ, ◌≡◌, ◌≢◌, refl, arith, List, [], ◌∷◌, ◌++◌, none, some, pos, negsuc, length, drop, min, leb,
  ◌==◌, if◌then◌else◌, ℤ, true,
}
use rust_onvm_v.Nflib.Constants.{nf_running, nf_stopped}
use rust_onvm_v.Nflib.Structs.Packets.{Ptr, packets, nf}
use rust_onvm_v.Nflib.Structs.Ports.{default_ports}
use rust_onvm_v.Nflib.Structs.Nf.{Ring, OnvmNf, OnvmNfInitCfg}
use rust_onvm_v.Mgr.Global.{default}
use rust_onvm_v.Mgr.System.{System}
use rust_onvm_v.Mgr.Nf.Dpdk.{NfDpdk, RingLaws}

-- What each ring holds.
abbrev pub Rings : Type 0
Rings = Ring → List Ptr

abbrev pub put : Rings → Ring → List Ptr → Rings
put w r xs q = if r == q then xs else w q

abbrev pub take_one : Rings → Ring → List Ptr → (ℤ × Ptr) × Rings
take_one w r [] = ((negsuc 1, 0), w)
take_one w r (p ∷ ps) = ((pos 0, p), put w r ps)

-- A ring has room for everything.
abbrev pub rings_dpdk : NfDpdk Rings
rings_dpdk = record {
  ring_count = λ r w. length (w r);
  ring_dequeue_bulk = λ r n w. if leb n (length (w r)) then (n, put w r (drop n (w r))) else (0, w);
  ring_dequeue_burst = λ r n w. (min n (length (w r)), put w r (drop n (w r)));
  ring_dequeue = λ r w. take_one w r (w r);
  ring_enqueue = λ r m w. (pos 0, put w r (w r ++ m ∷ []));
  mempool_lookup = λ name w. some 7;
  mempool_get = λ pool w. (pos 0, w);
  mempool_put = λ pool p w. w;
  pktmbuf_free = λ p w. w;
  free_tag = λ t w. w;
  box_new = λ m w. (4000, w);
  box_drop = λ p w. w;
}

leb_refl : (n : ℕ) → leb n n ≡ true
leb_refl n = ground arith

pub bulk_all :
    (r : Ring) (w : Rings) → (rings_dpdk.ring_dequeue_bulk r (length (w r)) w).0 ≡ length (w r)
bulk_all r w = rw (leb_refl (length (w r))) refl

pub put_self : (w : Rings) (r : Ring) (xs : List Ptr) → put w r xs r ≡ xs
put_self w r xs = ground arith

pub put_other : (w : Rings) (r q : Ring) (xs : List Ptr) → r ≢ q → put w r xs q ≡ w q
put_other w r q xs ne = ground arith

pub take_nil :
    (r : Ring) (w : Rings) (xs : List Ptr)
    → w r ≡ []
    → xs ≡ []
    → ((take_one w r xs).0.0 ≢ pos 0) × ((take_one w r xs).1 r ≡ [])
take_nil r w [] h e = (λ z. cc, h)
take_nil r w (x ∷ xs) h e = cc

pub take_cons :
    (r : Ring) (w : Rings) (xs : List Ptr) (p : Ptr) (ps : List Ptr)
    → xs ≡ p ∷ ps
    → ((take_one w r xs).0 ≡ (pos 0, p)) × ((take_one w r xs).1 r ≡ ps)
take_cons r w [] p ps e = cc
take_cons r w (x ∷ xs) p ps e = ground (arith, put_self w r xs)

pub take_other : (r q : Ring) (w : Rings) (xs : List Ptr) → r ≢ q → (take_one w r xs).1 q ≡ w q
take_other r q w [] ne = refl
take_other r q w (x ∷ xs) ne = put_other w r q xs ne

abbrev pub rings_laws : RingLaws rings_dpdk
rings_laws = record {
  contents = λ r w. w r;
  count_lem = λ r w. refl;
  bulk_count = bulk_all;
  burst_count = λ r n w. refl;
  burst_rest = λ r n w. put_self w r (drop n (w r));
  burst_other = λ r q n w ne. put_other w r q (drop n (w r)) ne;
  dequeue_nil = λ r w h. take_nil r w (w r) h h;
  dequeue_cons = λ r w p ps h. take_cons r w (w r) p ps h;
  dequeue_other = λ r q w ne. take_other r q w (w r) ne;
  put_contents = λ r m p w. refl;
  free_contents = λ r m w. refl;
  free_tag_contents = λ r t w. refl;
}

-- An NF in slot 1, on core 0, of service 0, with the rings 10, 11 and 12.
abbrev pub nf_with : ℕ → OnvmNf
nf_with status = record {
  rx_q = some 10;
  tx_q = some 11;
  msg_q = some 12;
  nf_tx_mgr = record {
    id = 0;
    mgr_type = nf;
    buf = packets (record { buffer = []; count = 0 });
    nf_rx_buf = record { buffer = []; count = 0 };
  };
  instance_id = 1;
  service_id = 0;
  status = status;
  tag = [];
  thread_info = record { core = 0; parent = 0; children_count = 0 };
  flags = record { init_options = 0; time_to_live = 0; pkt_limit = 0 };
  function_table = record {
    setup = 0;
    nf_msg_handler_fn = 0;
    nf_user_actions_fn = 0;
    nf_pkt_handler_fn = 0;
  };
  shared_core = record { sleep_state = 0 };
}

-- Slot 0 holds a stopped NF at 1000, slot 1 the NF at 1001.
abbrev pub system_with : ℕ → ℕ → Rings → System Rings
system_with status started w = record {
  global = record default {
    incoming_msg_queue = some 5;
    nf_msg_pool = some 7;
    nf_per_service_count = started ∷ [];
    nfs = 1000 ∷ 1001 ∷ [];
    num_nfs = started;
    cores = 2000 ∷ [];
    ports = some default_ports;
  };
  nf_mem = λ p.
      if p == 1000
      then some (nf_with nf_stopped)
      else if p == 1001
      then some (nf_with status)
      else none;
  core_mem = λ p.
      if p == 2000
      then some (record { enabled = true; is_dedicated_core = 1; nf_count = 1 })
      else none;
  world = w;
}

abbrev pub no_packets : Rings
no_packets r = []

abbrev pub one_running : System Rings
one_running = system_with nf_running 1 no_packets

abbrev pub start_config : ℕ → OnvmNfInitCfg
start_config service = record {
  instance_id = 0;
  service_id = service;
  core = 0;
  init_options = 0;
  status = 0;
  tag = none;
  time_to_live = 0;
  pkt_limit = 0;
}
