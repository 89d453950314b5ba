-- ===== src/Mgr/Nf/Messages/Laws.antt =====
-- Laws of the messages between the manager and its NFs.
use rust_onvm_v.Base.{
  ℕ, zero, suc, ◌≡◌, ◌∙◌, ap, refl, arith, some, ok, panic, index_out_of_bounds, length, bind_ok,
  deref_ok, ◌==◌, if◌then◌else◌,
}
use rust_onvm_v.Nflib.Structs.Packets.{Ptr}
use rust_onvm_v.Nflib.Structs.Nf.{Ring}
use rust_onvm_v.Mgr.System.{System}
use rust_onvm_v.Mgr.Nf.Dpdk.{NfDpdk, RingLaws}
use rust_onvm_v.Mgr.Nf.Messages.{process_msgs, take_msgs, onvm_nf_check_status}

module _ {W : Type 0} (d : NfDpdk W) where
  take_msgs_lem :
      (fuel : ℕ) (vec : Ptr) (queue : Ring) (s : System W) (n : ℕ)
      → (d.ring_dequeue_bulk queue n s.world).0 ≡ n
      → take_msgs d fuel vec queue n s ≡ (
          if n == 0
          then ok tt s
          else panic index_out_of_bounds
              (record s { world = (d.ring_dequeue_bulk queue n s.world).1 }))
  unfolding take_msgs process_msgs
  take_msgs_lem fuel vec queue s zero e = refl
  take_msgs_lem fuel vec queue s (suc n) e = ground arith

  -- A look at the manager's queue passes where the queue is empty, and panics at the first message
  -- where it is not: the messages are off the queue then, and no handler has run.
  pub check_status_lem :
      (l : RingLaws d) (fuel : ℕ) (vec : Ptr) (queue : Ring) (s : System W)
      → s.global.incoming_msg_queue ≡ some queue
      → onvm_nf_check_status d fuel vec s ≡ (
          if length (l.contents queue s.world) == 0
          then ok tt s
          else panic index_out_of_bounds (record s {
            world = (d.ring_dequeue_bulk queue (length (l.contents queue s.world)) s.world).1;
          }))
  unfolding onvm_nf_check_status
  check_status_lem l fuel vec queue s e =
      bind_ok _ (deref_ok s e)
      ∙ ap (λ n. take_msgs d fuel vec queue n s) (l.count_lem queue s.world)
      ∙ take_msgs_lem fuel vec queue s _ (l.bulk_count queue s.world)
