-- ===== src/Mgr/Nf/Messages/Sent.antt =====
-- What `onvm_nf_send_msg` of onvm_mgr/src/mgr/net_funcs.rs puts on the ring of an NF.
use rust_onvm_v.Base.{
  ℕ, zero, suc, refl, ◌≢◌, negsuc, Cmd, deref, index_at, final, and_then, panic,
  index_out_of_bounds, Option-cases, ◌≡◌, ◌∙◌, sym, ap, List, [], ◌∷◌, ◌++◌, Option, none, some, ℤ,
  pos, eq_ℤ, Run, ok, false, and_then_ok, get_elem?, Bool-cases, inl, inr, not, Bool, ◌>>=◌,
  if◌then◌else◌,
}
use rust_onvm_v.Nflib.Structs.Packets.{Ptr}
use rust_onvm_v.Nflib.Structs.Nf.{Ring, OnvmNf, OnvmNfMsg}
use rust_onvm_v.Mgr.System.{System, nf_at, load_nf}
use rust_onvm_v.Mgr.Nf.Dpdk.{NfDpdk, SendLaws}
use rust_onvm_v.Mgr.Nf.Start.{NfError}
use rust_onvm_v.Mgr.Nf.Stop.{Step}
use rust_onvm_v.Mgr.Nf.Messages.{enqueue, deliver, onvm_nf_send_msg}

-- The NF in a slot, and its ring for messages.
pub record Receiver {W : Type 0} (s : System W) (dest : ℕ) (q : Ring) : Type 0 where
  pub at : Ptr
  pub nf : OnvmNf
  pub slot : get_elem? s.global.nfs dest ≡ some at
  pub here : s.nf_mem at ≡ some nf
  pub msg_q : nf.msg_q ≡ some q

module _ {E S A B : Type 0} where
  -- A pointer that was followed, and an index that was read, by a command that returned.
  deref_then :
      (o : Option A) (k : A → Cmd E S B) (s : S) {b : B} {t : S}
      → and_then (deref o s) k ≡ ok b t
      → (a : A) × (o ≡ some a) × (k a s ≡ ok b t)
  deref_then none k s h = cc
  deref_then (some a) k s h = (a, refl, h)

  index_then :
      (xs : List A) (i : ℕ) (k : A → Cmd E S B) (s : S) {b : B} {t : S}
      → and_then (index_at xs i s) k ≡ ok b t
      → (a : A) × (get_elem? xs i ≡ some a) × (k a s ≡ ok b t)
  index_then xs i k s {b} {t} h = elim (Option-cases (get_elem? xs i)) [
    | inl out ↦ absurd (no_ok (sym (ap (λ o. and_then (read o) k) out) ∙ h))
    | inr (a, found) ↦ (a, found, sym (ap (λ o. and_then (read o) k) found) ∙ h)
  ]
    where
      read : Option A → Run E S A
      read o = elim o [ none ↦ panic index_out_of_bounds s | some x ↦ ok x s ]

      no_ok : ¬ (◌≡◌ {A = Run E S B} (panic index_out_of_bounds s) (ok b t))
      no_ok e = cc

answer_zero : (c : ℤ) → eq_ℤ c (pos 0) ≡ false → c ≢ pos 0
answer_zero (pos zero) e h = cc
answer_zero (pos (suc n)) e h = cc
answer_zero (negsuc n) e h = cc

module _ {W : Type 0} (d : NfDpdk W) (l : SendLaws d) where
  enqueue-puts :
      (o : Option Ring) (boxed : Ptr) (s t : System W)
      → enqueue d o boxed s ≡ ok (pos 0) t
      → (q : Ring) × (o ≡ some q) × (l.contents q t.world ≡ l.contents q s.world ++ boxed ∷ [])
  unfolding enqueue
  enqueue-puts none boxed s t h = cc
  enqueue-puts (some q) boxed s t h =
      let accepted : (d.ring_enqueue q boxed s.world).0 ≡ pos 0 = cc in
      let left : (d.ring_enqueue q boxed s.world).1 ≡ t.world =
        ap (λ (r : Run NfError (System W) ℤ). (final r).world) h in
      (q, refl, ap (l.contents q) (sym left) ∙ l.enqueue_put q boxed s.world accepted)

  abbrev routed : ℕ → Ptr → Step d ℤ
  routed dest boxed = do p ← nf_at dest; nf ← load_nf p; enqueue d nf.msg_q boxed

  routed-puts :
      (dest : ℕ) (boxed : Ptr) (s t : System W)
      → routed dest boxed s ≡ ok (pos 0) t
      → (q : Ring) × Receiver s dest q × (l.contents q t.world ≡ l.contents q s.world ++ boxed ∷ [])
  routed-puts dest boxed s t h =
      let (p, slot, h1) = index_then s.global.nfs dest _ s h in
      let (nf, here, h2) = deref_then (s.nf_mem p) _ s h1 in
      let (q, ring, more) = enqueue-puts nf.msg_q boxed s t h2 in
      (q, record { at = p; nf = nf; slot = slot; here = here; msg_q = ring }, more)

  deliver-puts :
      (ret : ℤ) (dest : ℕ) (boxed : Ptr) (s t : System W)
      → deliver d ret dest boxed s ≡ ok (pos 0) t
      → (q : Ring) × Receiver s dest q × (l.contents q t.world ≡ l.contents q s.world ++ boxed ∷ [])
  unfolding deliver
  deliver-puts ret dest boxed s t h = elim (Bool-cases (eq_ℤ ret (pos 0))) [
    | inr other ↦ absurd (answer_zero ret other (same (sym (branch other) ∙ h)))
    | inl zero_code ↦ routed-puts dest boxed s t (sym (branch zero_code) ∙ h)
  ]
    where
      branch :
          {b : Bool}
          → eq_ℤ ret (pos 0) ≡ b
          → (if not (eq_ℤ ret (pos 0)) then ok ret else routed dest boxed) s
            ≡ (if not b then ok ret else routed dest boxed) s
      branch e = ap (λ b. (if not b then ok ret else routed dest boxed) s) e

      same : ◌≡◌ {A = Run NfError (System W) ℤ} (ok ret s) (ok (pos 0) t) → ret ≡ pos 0
      same e = cc

  -- Where `onvm_nf_send_msg` answers 0, the ring of the NF in the slot holds one object more, which
  -- is the address of the message, and the memory there is no longer in use.
  pub send_msg-dangles :
      (dest : ℕ) (msg : OnvmNfMsg) (s t : System W)
      → onvm_nf_send_msg d dest msg s ≡ ok (pos 0) t
      → (q : Ring) × Receiver s dest q
        × (l.contents q t.world ≡ l.contents q s.world ++ (d.box_new msg s.world).0 ∷ [])
        × (l.live t.world (d.box_new msg s.world).0 ≡ false)
  unfolding onvm_nf_send_msg
  send_msg-dangles dest msg s t h =
      let (boxed, w) = d.box_new msg s.world in
      let s1 : System W = record s { world = w } in
      let (pool, pooled, h1) = deref_then s.global.nf_msg_pool _ s1 h in
      let (r, s2, e2, h2) =
        and_then_ok
          (deliver d (d.mempool_get pool w).0 dest boxed
            (record s1 { world = (d.mempool_get pool w).1 }))
          _ h1 in
      let freed : d.box_drop boxed s2.world ≡ t.world =
        ap (λ (x : Run NfError (System W) ℤ). (final x).world) h2 in
      let s3 : System W = record s1 { world = (d.mempool_get pool w).1 } in
      let (q, to, more) =
        deliver-puts (d.mempool_get pool w).0 dest boxed s3 s2
          (e2 ∙ ap (λ c. ok c s2) (zero_answer h2)) in
      (
        q,
        record { at = to.at; nf = to.nf; slot = to.slot; here = to.here; msg_q = to.msg_q },
        ap (l.contents q) (sym freed)
            ∙ l.drop_contents q boxed s2.world
            ∙ more
            ∙ ap (λ ps. ps ++ boxed ∷ []) (l.get_contents q pool w ∙ l.new_contents q msg s.world),
        ap (λ v. l.live v boxed) (sym freed) ∙ l.drop_live boxed s2.world,
      )
    where
      zero_answer :
          {r : ℤ} {u : System W}
          → ◌≡◌ {A = Run NfError (System W) ℤ} (ok r u) (ok (pos 0) t)
          → r ≡ pos 0
      zero_answer e = cc
