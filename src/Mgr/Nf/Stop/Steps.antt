-- ===== src/Mgr/Nf/Stop/Steps.antt =====
-- What each part of `onvm_nf_stop` does to a state that meets its needs.
use rust_onvm_v.Base.{
  ℕ, ◌+◌, ◌-◌, ◌%◌, ◌<◌, ◌≡◌, ◌∙◌, ap, arith, some, ok, get_elem?, set, ◌==◌, if◌then◌else◌,
  bind_ok, index_at_ok, deref_ok, checked_pred_ok, not,
}
use rust_onvm_v.Nflib.Constants.{nf_stopped, nf_mempool_name}
use rust_onvm_v.Nflib.Structs.Packets.{Ptr}
use rust_onvm_v.Nflib.Structs.Ports.{CoreStatus}
use rust_onvm_v.Nflib.Structs.Nf.{OnvmNf}
use rust_onvm_v.Mgr.Global.{Pool}
use rust_onvm_v.Mgr.System.{System, update, update_self, update-update}
use rust_onvm_v.Mgr.Nf.Dpdk.{NfDpdk}
use rust_onvm_v.Mgr.Nf.Stop.{mark_stopped, tell_parent, leave_core, free_info, uncount}

abbrev pub stopped : OnvmNf → OnvmNf
stopped nf = record nf { status = nf_stopped }

module _ {W : Type 0} (d : NfDpdk W) (s : System W) where
  pub mark_stopped_lem :
      (stop : Ptr) (nf : OnvmNf)
      → s.nf_mem stop ≡ some nf
      → get_elem? s.global.nfs nf.instance_id ≡ some stop
      → mark_stopped d stop s ≡ ok tt (record s { nf_mem = update s.nf_mem stop (stopped nf) })
  unfolding mark_stopped
  mark_stopped_lem stop nf here slot =
      bind_ok _ (deref_ok s here)
      ∙ bind_ok _ (deref_ok _ (update_self s.nf_mem stop (stopped nf)))
      ∙ bind_ok _ (index_at_ok s.global.nfs nf.instance_id _ slot)
      ∙ bind_ok _ (deref_ok _ (update_self s.nf_mem stop (stopped nf)))
      ∙ ap (λ m. ok tt (record s { nf_mem = m }))
          (update-update s.nf_mem stop (stopped nf) (stopped nf))

  pub tell_parent_lem :
      (nf_id : ℕ) (p q : Ptr) (nf parent : OnvmNf)
      → get_elem? s.global.nfs nf_id ≡ some p
      → s.nf_mem p ≡ some nf
      → get_elem? s.global.nfs nf.thread_info.parent ≡ some q
      → s.nf_mem q ≡ some parent
      → (n : ℕ) × (tell_parent d nf_id s ≡ ok n s)
  unfolding tell_parent
  tell_parent_lem nf_id p q nf parent slot here up there = (
    if not (nf.thread_info.parent == 0)
        then (parent.thread_info.children_count + 65535) % 65536
        else parent.thread_info.children_count,
    bind_ok _ (index_at_ok s.global.nfs nf_id s slot)
        ∙ bind_ok _ (deref_ok s here)
        ∙ bind_ok _ (index_at_ok s.global.nfs nf.thread_info.parent s up)
        ∙ bind_ok _ (deref_ok s there)
        ∙ ground arith,
  )

  pub leave_core_lem :
      (stop p : Ptr) (nf : OnvmNf) (c : CoreStatus)
      → s.nf_mem stop ≡ some nf
      → get_elem? s.global.cores nf.thread_info.core ≡ some p
      → s.core_mem p ≡ some c
      → 0 < c.nf_count
      → leave_core d stop s
        ≡ ok tt (record s {
          core_mem =
              update s.core_mem p (record c { nf_count = c.nf_count - 1; is_dedicated_core = 0 });
        })
  unfolding leave_core
  leave_core_lem stop p nf c here slot there busy =
      bind_ok _ (deref_ok s here)
      ∙ bind_ok _ (index_at_ok s.global.cores nf.thread_info.core s slot)
      ∙ bind_ok _ (deref_ok s there)
      ∙ bind_ok _ (checked_pred_ok s busy)
      ∙ bind_ok _ (deref_ok _ (update_self s.core_mem p (record c { nf_count = c.nf_count - 1 })))
      ∙ ap (λ m. ok tt (record s { core_mem = m }))
          (update-update s.core_mem p (record c { nf_count = c.nf_count - 1 })
            (record c { nf_count = c.nf_count - 1; is_dedicated_core = 0 }))

  pub free_info_lem :
      (stop : Ptr) (pool : Pool)
      → d.mempool_lookup nf_mempool_name s.world ≡ some pool
      → free_info d stop s ≡ ok tt (record s { world = d.mempool_put pool stop s.world })
  unfolding free_info
  free_info_lem stop pool found = ground arith

  pub uncount_lem :
      (service k : ℕ)
      → 0 < s.global.num_nfs
      → get_elem? s.global.nf_per_service_count service ≡ some k
      → 0 < k
      → uncount d service s
        ≡ ok tt (record s {
          global = record (s.global) {
            num_nfs = s.global.num_nfs - 1;
            nf_per_service_count = set s.global.nf_per_service_count service (k - 1);
          };
        })
  unfolding uncount
  uncount_lem service k some_nf slot some_service =
      bind_ok _ (checked_pred_ok s some_nf)
      ∙ bind_ok _ (index_at_ok s.global.nf_per_service_count service _ slot)
      ∙ bind_ok _ (checked_pred_ok _ some_service)
