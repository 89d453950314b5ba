-- ===== src/Nflib/Structs/Packets.antt =====
-- The packet buffers and queue managers of onvm_mgr/src/nflib/structs.rs. A packet is known by a
-- number. The `Arc` allocations that weak pointers refer to are a store, with both counts of each.
pub mod Laws
use rust_onvm_v.Base.{
  ℕ, ◌+◌, ◌-◌, List, [], ◌∷◌, ◌++◌, Option, none, some, Panic, overflow, Run, Cmd, panic, ok, err,
  deref, ◌>>=◌, ◌>>◌, skip, modify, get, ltb, leb, ◌==◌, ◌&&◌, if◌then◌else◌, length,
}
use rust_onvm_v.Nflib.Constants.{packet_read_size}

abbrev pub Mbuf : Type 0
Mbuf = ℕ

abbrev pub Ptr : Type 0
Ptr = ℕ

pub data OnvmAction : Type 0 where
  drop next tonf out : OnvmAction

pub record OnvmPktMeta : Type 0 where
  pub action : OnvmAction
  pub destination : ℕ
  pub src : ℕ
  pub chain_index : ℕ
  pub flags : ℕ

pub record PacketBuf : Type 0 where
  pub buffer : List Mbuf
  pub count : ℕ

-- An allocation of `std::sync::Arc`: the strong and weak counts beside the value.
pub record ArcInner : Type 0 where
  pub strong : ℕ
  pub weak : ℕ
  pub value : PacketBuf

abbrev pub Store : Type 0
Store = Ptr → Option ArcInner

-- The messages of `exit_on_failure`, which always returns `Err`.
pub data BufferError : Type 0 where
  does_not_exist not_found : BufferError

unfoldable pub new : PacketBuf
new = record { buffer = []; count = 0 }

-- The vector grows before the counter is checked.
unfoldable pub add_mbuf : PacketBuf → Mbuf → Run BufferError PacketBuf (Unit {0})
add_mbuf b pkt =
    let pushed = record b { buffer = b.buffer ++ pkt ∷ [] } in
    if ltb b.count 65535
    then ok tt (record pushed { count = b.count + 1 })
    else panic overflow pushed

unfoldable pub len : PacketBuf → ℕ
len b = length b.buffer

pub record TxThreadInfo : Type 0 where
  pub first_nf : ℕ
  pub last_nf : ℕ
  pub port_tx_bufs : Ptr

unfoldable pub tx_thread_new : ℕ → ℕ → Ptr → TxThreadInfo
tx_thread_new first last bufs = record { first_nf = first; last_nf = last; port_tx_bufs = bufs }

unfoldable pub write : Store → Ptr → ArcInner → Store
write s p a q = if p == q then some a else s q

-- `Weak::upgrade`: a strong reference more, unless there is none.
unfoldable pub upgrade : Ptr → Cmd BufferError Store (Option Ptr)
unfolding write
upgrade p = do
  s ← get
  a ← deref (s p)
  (if a.strong == 0 then (λ t. ok none t) else λ t.
      ok (some p) (write t p (record a { strong = a.strong + 1 })))

-- `Arc::get_mut`: the value, if there is no other strong or weak reference.
unfoldable pub get_mut : Ptr → Cmd BufferError Store (Option PacketBuf)
get_mut p = do
  s ← get
  a ← deref (s p)
  λ t. ok (if a.strong == 1 && a.weak == 0 then some a.value else none) t

-- A strong reference less.
unfoldable pub drop_arc : Ptr → Cmd BufferError Store (Unit {0})
unfolding write
drop_arc p = do
  s ← get
  a ← deref (s p)
  modify (λ t. write t p (record a { strong = a.strong - 1 }))

unfoldable pub store_buf : Ptr → PacketBuf → Cmd BufferError Store (Unit {0})
unfolding write
store_buf p b = do s ← get; a ← deref (s p); modify (λ t. write t p (record a { value = b }))

-- Runs `add_mbuf` on the buffer of an allocation.
unfoldable pub push_into : Ptr → PacketBuf → Mbuf → Cmd BufferError Store (Unit {0})
unfolding add_mbuf store_buf
push_into p b pkt s = elim (add_mbuf b pkt) [
  | ok _ b' ↦ store_buf p b' s
  | panic e b' ↦ (store_buf p b' >> λ t. panic e t) s
  | _ ↦ ok tt s
]

-- What the arm for a reference that was upgraded returns, before the reference is dropped.
unfoldable pub add_upgraded : Ptr → Mbuf → Cmd BufferError Store (Option BufferError)
unfolding get_mut push_into
add_upgraded p pkt = get_mut p >>= λ found. elim found [
  | none ↦ λ s. ok (some does_not_exist) s
  | some buf ↦
      (if ltb (len buf) packet_read_size then push_into p buf pkt else skip) >> λ s. ok none s
]

unfoldable pub as_result : Option BufferError → Cmd BufferError Store (Unit {0})
as_result none s = ok tt s
as_result (some e) s = err e s

unfoldable pub tx_thread_add_mbuf : TxThreadInfo → Mbuf → Cmd BufferError Store (Unit {0})
unfolding upgrade add_upgraded drop_arc as_result
tx_thread_add_mbuf t pkt = upgrade t.port_tx_bufs >>= λ found. elim found [
  | none ↦ λ s. err not_found s
  | some p ↦ add_upgraded p pkt >>= λ e. drop_arc p >> as_result e
]

pub data QmgrType : Type 0 where
  nf mgr : QmgrType

pub data Qmgr : Type 0 where
  tx_thread : TxThreadInfo → Qmgr
  packets : PacketBuf → Qmgr

pub record QueueMgr : Type 0 where
  pub id : ℕ
  pub mgr_type : QmgrType
  pub buf : Qmgr
  pub nf_rx_buf : PacketBuf

unfoldable pub get_self : ℕ → QmgrType → Qmgr → PacketBuf → QueueMgr
get_self id kind buf rx = record { id = id; mgr_type = kind; buf = buf; nf_rx_buf = rx }

unfoldable pub queue_mgr_new : ℕ → QmgrType → Qmgr → PacketBuf → Option QueueMgr
unfolding get_self
queue_mgr_new id mgr (tx_thread t) rx = some (get_self id mgr (tx_thread t) rx)
queue_mgr_new id mgr (packets b) rx = none
queue_mgr_new id nf (packets b) rx = some (get_self id nf (packets b) rx)
queue_mgr_new id nf (tx_thread t) rx = none
