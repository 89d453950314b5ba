-- ===== src/Nflib/Structs/Packets/Laws.antt =====
-- Laws of the packet buffers and queue managers of onvm_mgr/src/nflib/structs.rs.
use rust_onvm_v.Base.{
  ◌+◌, ◌≤◌, ◌-◌, suc, ltb, ◌≡◌, inl, inr, List, [], ◌∷◌, ◌++◌, Option, none, some, arith, ok, err,
  length, ◌==◌, leb, if◌then◌else◌, Bool-cases, refl,
}
use mathlib.Core.List.{append_assoc, append-nil}
use native.Mathlib.Nat.{add-zero}
use rust_onvm_v.Nflib.Structs.Packets.{
  Mbuf, Ptr, PacketBuf, ArcInner, Store, TxThreadInfo, does_not_exist, not_found, add_mbuf, write,
  tx_thread_add_mbuf,
}

-- Adding packets one after the other; `none` is the panic of the counter's overflow.
unfoldable pub add_all : PacketBuf → List Mbuf → Option PacketBuf
add_all b [] = some b
add_all b (p ∷ ps) = elim (add_mbuf b p) [ ok _ b' ↦ add_all b' ps | _ ↦ none ]

-- For a counter that is a `u16`: adding packets appends them in order and counts each, and fails
-- exactly when the counter would pass 65535.
pub add_all_lem :
    (b : PacketBuf) (ps : List Mbuf)
    → b.count ≤ 65535
    → add_all b ps ≡ (
        if leb (b.count + length ps) 65535
        then some (record { buffer = b.buffer ++ ps; count = b.count + length ps })
        else none)
unfolding add_all add_mbuf
add_all_lem b [] h = rw (append-nil, add-zero) (ground arith)
add_all_lem b (p ∷ ps) h = elim (Bool-cases (ltb b.count 65535)) [
  | inl room ↦
      rw (room, add_all)
        (rw
          (add_all_lem (record { buffer = b.buffer ++ p ∷ []; count = b.count + 1 }) ps
            (ground arith))
          (rw (append_assoc b.buffer (p ∷ []) ps, next) refl))
  | inr full ↦ rw (full, add_all) (ground arith)
]
  where
    next : b.count + 1 + length ps ≡ b.count + suc (length ps)
    next = omega arith

-- An upgraded reference is never the only one, so no packet ever gets into a buffer through a tx
-- thread: the call returns an error and leaves every allocation as it was, counts included.
pub tx_thread_add_mbuf-err :
    (t : TxThreadInfo) (pkt : Mbuf) (s : Store) (a : ArcInner)
    → s t.port_tx_bufs ≡ some a
    → (s' : Store) × (tx_thread_add_mbuf t pkt s
        ≡ err (if a.strong == 0 then not_found else does_not_exist) s')
      × ((q : Ptr) → s' q ≡ s q)
unfolding tx_thread_add_mbuf write
tx_thread_add_mbuf-err t pkt s a h = elim (Bool-cases (a.strong == 0)) [
  | inl z ↦ (s, rw (h, z) refl, λ q. refl)
  | inr nz ↦ (
    write (write s t.port_tx_bufs (record a { strong = a.strong + 1 })) t.port_tx_bufs
        (record a { strong = a.strong + 1 - 1 }),
    rw (h, nz) (ground arith),
    λ q. ground arith,
  )
]
