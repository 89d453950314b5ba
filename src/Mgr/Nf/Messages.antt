-- ===== src/Mgr/Nf/Messages.antt =====
-- Messages between the manager and its NFs: `onvm_nf_check_status` and `onvm_nf_send_msg` of
-- onvm_mgr/src/mgr/net_funcs.rs. What is logged is left out; what is read for it is not.
pub mod Laws
pub mod Sent
use rust_onvm_v.Base.{
  ℕ, zero, suc, List, [], Option, none, some, ℤ, pos, eq_ℤ, Run, Cmd, ok, err, panic, fault, exit,
  out_of_fuel, ◌>>=◌, ◌>>◌, skip, get, deref, index_at, ◌==◌, not, if◌then◌else◌,
}
use rust_onvm_v.Nflib.Structs.Packets.{Ptr}
use rust_onvm_v.Nflib.Structs.Nf.{
  Ring, OnvmNfInitCfg, OnvmNfMsg, nf_starting, nf_ready, nf_stopping,
}
use rust_onvm_v.Mgr.System.{System, load_nf, nf_at, effect, call}
use rust_onvm_v.Mgr.Nf.Dpdk.{NfDpdk}
use rust_onvm_v.Mgr.Nf.Start.{NfError, onvm_nf_start, onvm_nf_ready}
use rust_onvm_v.Mgr.Nf.Stop.{onvm_nf_stop, Step}

module _ {W : Type 0} where
  -- `match retval { Ok(()) => …, Err(e) => … }`, where both arms go on.
  unfoldable pub settle : Run NfError (System W) (Unit {0}) → Run NfError (System W) (Unit {0})
  settle (err e s) = ok tt s
  settle r = r

  -- The same for a start, whose configuration is a part of the message.
  unfoldable pub settle_start :
      Run NfError OnvmNfInitCfg (Unit {0}) → Cmd NfError (System W) OnvmNfMsg
  settle_start (ok _ cfg) s = ok (nf_starting cfg) s
  settle_start (err _ cfg) s = ok (nf_starting cfg) s
  settle_start (panic p _) s = panic p s
  settle_start (fault _) s = fault s
  settle_start (exit _) s = exit s
  settle_start (out_of_fuel _) s = out_of_fuel s

-- The vector that the messages are to be read into. It has room, but its length is 0, and nothing
-- sets another.
abbrev msgs : List OnvmNfMsg
msgs = []

module _ {W : Type 0} (d : NfDpdk W) where
  -- The `match` on a message; the result is the message as the handler leaves it. The id of an NF
  -- is read for the log after its handler has run.
  unfoldable pub handle_msg : ℕ → OnvmNfMsg → Step d OnvmNfMsg
  unfolding settle settle_start onvm_nf_ready
  handle_msg fuel (nf_starting start) s = settle_start (onvm_nf_start s fuel start) s
  handle_msg fuel (nf_ready ready) s =
      ((λ t. settle (onvm_nf_ready ready t)) >> load_nf ready >>= λ _. ok (nf_ready ready)) s
  handle_msg fuel (nf_stopping stop) s =
      ((λ t. settle (onvm_nf_stop d fuel stop t)) >> load_nf stop >>= λ _. ok (nf_stopping stop)) s

  -- `for i in 0..num_msgs`: `n` rounds are left, the next is round `i`.
  unfoldable pub process_msgs : ℕ → Ptr → ℕ → ℕ → Step d (Unit {0})
  unfolding handle_msg
  process_msgs fuel vec zero i = skip
  process_msgs fuel vec (suc n) i = do
    msg ← index_at msgs i
    handle_msg fuel msg
    s ← get
    pool ← deref s.global.nf_msg_pool
    effect (d.mempool_put pool vec)
    process_msgs fuel vec n (suc i)

  -- What follows the count of the messages. `vec` is where the vector's memory lies.
  unfoldable pub take_msgs : ℕ → Ptr → Ring → ℕ → Step d (Unit {0})
  unfolding process_msgs
  take_msgs fuel vec queue num_msgs = if num_msgs == 0 then skip else do
    n ← call (d.ring_dequeue_bulk queue num_msgs)
    (if n == 0 then skip else process_msgs fuel vec num_msgs 0)

  unfoldable pub onvm_nf_check_status : ℕ → Ptr → Step d (Unit {0})
  unfolding take_msgs
  onvm_nf_check_status fuel vec = do
    s ← get
    queue ← deref s.global.incoming_msg_queue
    take_msgs fuel vec queue (d.ring_count queue s.world)

  -- The queue's arm, and the exit where there is no queue.
  unfoldable pub enqueue : Option Ring → Ptr → Step d ℤ
  enqueue (some msg_q) boxed = call (d.ring_enqueue msg_q boxed)
  enqueue none boxed = exit

  -- What follows the request to the pool.
  unfoldable pub deliver : ℤ → ℕ → Ptr → Step d ℤ
  unfolding enqueue
  deliver ret dest boxed =
      if not (eq_ℤ ret (pos 0))
      then ok ret
      else do p ← nf_at dest; nf ← load_nf p; enqueue nf.msg_q boxed

  -- The message is moved to the heap, and freed where the function returns: what the ring holds
  -- then is the address of freed memory. What the drop does after a panic is left out.
  unfoldable pub onvm_nf_send_msg : ℕ → OnvmNfMsg → Step d ℤ
  unfolding deliver
  onvm_nf_send_msg dest msg = do
    boxed ← call (d.box_new msg)
    s ← get
    pool ← deref s.global.nf_msg_pool
    ret ← call (d.mempool_get pool)
    r ← deliver ret dest boxed
    effect (d.box_drop boxed)
    ok r
