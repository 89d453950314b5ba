-- ===== src/Mgr/Args/Frame.antt =====
-- What the options of onvm_mgr/src/mgr/get_args.rs leave alone.
use rust_onvm_v.Base.{
  ℕ, zero, suc, ◌+◌, ◌/◌, ◌%◌, refl, ◌≡◌, final, arith, List, [], ◌∷◌, Option, some, none, ℤ, Cmd,
  overflow, unwrap, checked_pred, leb, ◌==◌, not, ◌>>=◌,
}
use rust_onvm_v.Nflib.Structs.Ports.{CoreStatus, PortInfo}
use rust_onvm_v.Mgr.System.{System, core_at, load_core}
use rust_onvm_v.Mgr.Frame.{
  Keeps, Keeps-intro, Keeps-elim, Keeps-bind, Keeps-seq, Keeps-if, Keeps-ok, Keeps-panic,
  Keeps-read, Keeps-index_at, Keeps-deref,
}
use rust_onvm_v.Mgr.Args.{
  ArgError, Matches, from_str_radix, from_str_radix_i64, is_zero, is_odd, shift, assign_port,
  use_port, portmask_loop, parse_portmask, parse_num_services, enable_core, coremask_loop,
  print_loop, parse_nf_cores, parse_app_args, on_value,
}

-- The ports without their ids.
abbrev pub without_ids : Option PortInfo → Option PortInfo
without_ids none = none
without_ids (some ports) = some (record ports { id = [] })

module _ (W : Type 0) where
  -- The state without what the options set: the ids of the ports, the number of services and the
  -- status of the cores.
  abbrev pub view : System W → System W
  view s = record s {
    global = record (s.global) { ports = without_ids s.global.ports; num_services = 0 };
    core_mem = λ p. none;
  }

  Keeps-unwrap : {A : Type 0} (o : Option A) → Keeps {E = ArgError} view (unwrap o)
  Keeps-unwrap none = Keeps-intro view _ (λ s. refl)
  Keeps-unwrap (some a) = Keeps-intro view _ (λ s. refl)

  assign_port-Keeps : (count : ℕ) → Keeps view (assign_port count)
  unfolding Keeps assign_port
  assign_port-Keeps count s = ground arith

  use_port-Keeps : (max count : ℕ) → Keeps view (use_port max count)
  unfolding use_port
  use_port-Keeps max count =
      Keeps-if view (leb max count) _ _ (Keeps-ok ArgError view tt) (assign_port-Keeps count)

  portmask_loop-Keeps :
      (fuel max : ℕ) (pm : ℤ) (count : ℕ) → Keeps view (portmask_loop fuel max pm count)
  unfolding portmask_loop
  portmask_loop-Keeps zero max pm count = Keeps-intro view _ (λ s. refl)
  portmask_loop-Keeps (suc fuel) max pm count =
      Keeps-if view (is_zero pm) _ _ (Keeps-ok ArgError view tt) (
        Keeps-if view (is_odd pm) _ _
          (Keeps-seq view _ _ (use_port-Keeps max count) (
            Keeps-if view (leb 65535 count) _ _ (Keeps-panic ArgError view _ overflow)
              (portmask_loop-Keeps fuel max (shift pm) (count + 1))))
          (portmask_loop-Keeps fuel max pm count))

  parse_portmask-Keeps : (fuel max : ℕ) (mask : List ℕ) → Keeps view (parse_portmask fuel max mask)
  unfolding parse_portmask
  parse_portmask-Keeps fuel max mask =
      Keeps-bind view _ _ (Keeps-unwrap (from_str_radix_i64 16 mask)) λ pm.
        Keeps-if view (is_zero pm) _ _ (Keeps-ok ArgError view tt)
          (portmask_loop-Keeps fuel max pm 0)

  parse_num_services-Keeps : (services : List ℕ) → Keeps view (parse_num_services services)
  unfolding parse_num_services
  parse_num_services-Keeps services =
      Keeps-bind view _ _ (Keeps-unwrap (from_str_radix 10 255 services))
        λ r. Keeps-intro view _ (λ s. refl)

  enable_core-Keeps : (i : ℕ) → Keeps view (enable_core i)
  unfolding Keeps enable_core
  enable_core-Keeps i s = ground arith

  coremask_loop-Keeps :
      (fuel max pm count num : ℕ) → Keeps view (coremask_loop fuel max pm count num)
  unfolding coremask_loop
  coremask_loop-Keeps zero max pm count num = Keeps-intro view _ (λ s. refl)
  coremask_loop-Keeps (suc fuel) max pm count num =
      Keeps-if view (pm == 0) _ _ (Keeps-ok ArgError view num) (
        Keeps-bind view _ _
          (Keeps-if view (not (pm % 2 == 1)) _ _ (Keeps-ok ArgError view num) (
            Keeps-if view (leb max count) _ _ (Keeps-ok ArgError view num)
              (Keeps-seq view _ _ (enable_core-Keeps count) (Keeps-ok ArgError view (num + 1)))))
          λ num.
            Keeps-if view (count + 1 == max) _ _ (Keeps-ok ArgError view num)
              (coremask_loop-Keeps fuel max (pm / 2) (count + 1) num))

  core_status-Keeps :
      {A : Type 0} (i : ℕ) (k : CoreStatus → Cmd ArgError (System W) A)
      → ((c : CoreStatus) → Keeps view (k c))
      → Keeps view (do p ← core_at i; c ← load_core p; k c)
  core_status-Keeps i k h =
      Keeps-bind view _ _
        (Keeps-read view (λ s. s.global.cores) _ (λ cores. Keeps-index_at ArgError view cores i))
        λ p.
          Keeps-bind view _ _
            (Keeps-read view (λ s. s.core_mem p) _ (λ o. Keeps-deref ArgError view o)) h

  Keeps-checked_pred : (n : ℕ) → Keeps {E = ArgError} view (checked_pred n)
  Keeps-checked_pred n = Keeps-intro view _ (λ s. ground arith)

  print_loop-Keeps : (n i num count : ℕ) → Keeps view (print_loop n i num count)
  unfolding print_loop
  print_loop-Keeps zero i num count = Keeps-ok ArgError view []
  print_loop-Keeps (suc n) i num count = core_status-Keeps count _ λ c.
      Keeps-if view (not c.enabled) _ _ (print_loop-Keeps n (suc i) num count) (
        Keeps-bind view _ _ (Keeps-checked_pred num) λ m.
          Keeps-bind view _ _ (print_loop-Keeps n (suc i) num (count + 1))
            λ rest. Keeps-ok ArgError view (i ∷ rest))

  parse_nf_cores-Keeps : (fuel max : ℕ) (mask : List ℕ) → Keeps view (parse_nf_cores fuel max mask)
  unfolding parse_nf_cores
  parse_nf_cores-Keeps fuel max mask =
      Keeps-bind view _ _ (Keeps-unwrap (from_str_radix 10 255 mask)) λ pm.
        Keeps-if view (pm == 0) _ _ (Keeps-ok ArgError view []) (
          Keeps-bind view _ _ (coremask_loop-Keeps fuel max pm 0 0)
            λ num. print_loop-Keeps max 0 num 0)

  on_option :
      (o : Option (List ℕ)) (f : List ℕ → Cmd ArgError (System W) (Unit {0}))
      → ((t : List ℕ) → Keeps view (f t))
      → Keeps view (on_value o f)
  on_option none f h = Keeps-ok ArgError view tt
  on_option (some t) f h = h t

  parse_app_args-Keeps :
      (fuel max_cores max_ports : ℕ) (matches : Option Matches)
      → Keeps view (parse_app_args fuel max_cores max_ports matches)
  unfolding parse_app_args
  parse_app_args-Keeps fuel max_cores max_ports none = Keeps-intro view _ (λ s. refl)
  parse_app_args-Keeps fuel max_cores max_ports (some m) =
      Keeps-seq view _ _ (on_option m.port_mask _ (parse_portmask-Keeps fuel max_ports)) (
        Keeps-seq view _ _ (on_option m.num_services _ parse_num_services-Keeps) (
          on_option m.nf_cores _ λ t.
            Keeps-seq view _ _ (parse_nf_cores-Keeps fuel max_cores t) (Keeps-ok ArgError view tt)))

  -- However the reading of the options ends, and whatever they are, only the ids of the ports, the
  -- number of services and the status of the cores can be others than before.
  pub parse_app_args-view :
      (fuel max_cores max_ports : ℕ) (matches : Option Matches) (s : System W)
      → view (final (parse_app_args fuel max_cores max_ports matches s)) ≡ view s
  parse_app_args-view fuel max_cores max_ports matches s =
      Keeps-elim view _ (parse_app_args-Keeps fuel max_cores max_ports matches) s
