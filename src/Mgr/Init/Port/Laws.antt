-- ===== src/Mgr/Init/Port/Laws.antt =====
-- What `init_port` leaves alone, and how many queues it sets up.
use rust_onvm_v.Base.{
  ℕ, zero, suc, ◌<◌, ◌≡◌, ◌≢◌, ◌∙◌, sym, ap, refl, arith, some, Run, Cmd, ok, err, panic, fault,
  exit, out_of_fuel, and_then, and_then_ok, final, skip, length, set,
}
use rust_onvm_v.Nflib.Structs.Ports.{PortInfo}
use rust_onvm_v.Mgr.Global.{EthConf}
use rust_onvm_v.Mgr.System.{System, own}
use rust_onvm_v.Mgr.Frame.{Keeps, Keeps-seq, Keeps-bind}
use rust_onvm_v.Mgr.Init.Dpdk.{InitDpdk, QueueArgs}
use rust_onvm_v.Mgr.Init.Port.{
  InitError, tx_ring_count, get_info, configure, adjust, rx_queue, tx_queue, each_queue,
  promiscuous, start, mark_init, local_conf, queue_args, bring_up, init_port,
}

-- The flag of a port that is up.
abbrev pub marked : PortInfo → ℕ → PortInfo
marked ports port = record ports { init = set ports.init port 1 }

module _ {W : Type 0} (d : InitDpdk W) where
  tx_ring_count-Keeps : Keeps own (tx_ring_count d)
  unfolding Keeps tx_ring_count
  tx_ring_count-Keeps s = ground arith

  get_info-Keeps : (port : ℕ) → Keeps own (get_info d port)
  unfolding Keeps get_info
  get_info-Keeps port s = ground arith

  configure-Keeps : (port n : ℕ) (c : EthConf) → Keeps own (configure d port n c)
  unfolding Keeps configure
  configure-Keeps port n c s = ground arith

  adjust-Keeps : (port : ℕ) → Keeps own (adjust d port)
  unfolding Keeps adjust
  adjust-Keeps port s = ground arith

  rx_queue-Keeps : (a : QueueArgs) → Keeps own (rx_queue d a)
  unfolding Keeps rx_queue
  rx_queue-Keeps a s = ground arith

  tx_queue-Keeps : (a : QueueArgs) → Keeps own (tx_queue d a)
  unfolding Keeps tx_queue
  tx_queue-Keeps a s = ground arith

  promiscuous-Keeps : (port : ℕ) → Keeps own (promiscuous d port)
  unfolding Keeps promiscuous
  promiscuous-Keeps port s = ground arith

  start-Keeps : (port : ℕ) → Keeps own (start d port)
  unfolding Keeps start
  start-Keeps port s = ground arith

  skip-Keeps : Keeps {E = InitError} {S = System W} own skip
  unfolding Keeps
  skip-Keeps s = refl

  each_queue-Keeps :
      (setup : ℕ → Cmd InitError (System W) (Unit {0})) (n q : ℕ)
      → ((q : ℕ) → Keeps own (setup q))
      → Keeps own (each_queue d setup n q)
  unfolding each_queue
  each_queue-Keeps setup zero q h = skip-Keeps
  each_queue-Keeps setup (suc n) q h = Keeps-seq own _ _ (h q) (each_queue-Keeps setup n (suc q) h)

  -- Bringing a port up changes nothing that the manager holds, on the error paths too.
  pub bring_up-Keeps : (port : ℕ) (conf : EthConf) → Keeps own (bring_up d port conf)
  unfolding bring_up
  bring_up-Keeps port conf = Keeps-bind own _ _ tx_ring_count-Keeps λ tx_rings.
      Keeps-bind own _ _ (get_info-Keeps port) λ info.
        Keeps-seq own _ _ (configure-Keeps port tx_rings _) (
          Keeps-bind own _ _ (adjust-Keeps port) λ sizes.
            Keeps-seq own _ _
              (each_queue-Keeps
                (λ q. rx_queue d (queue_args port q sizes.0 (local_conf conf info).rx_offloads)) 1 0
                (λ q. rx_queue-Keeps _))
              (Keeps-seq own _ _
                (each_queue-Keeps (λ q. tx_queue d (queue_args port q sizes.1 conf.tx_offloads)) 1 0
                  (λ q. tx_queue-Keeps _))
                (Keeps-seq own _ _ (promiscuous-Keeps port) (start-Keeps port))))

  mark_ok :
      (port : ℕ) (ports : PortInfo) (s t : System W)
      → s.global.ports ≡ some ports
      → mark_init d port s ≡ ok tt t
      → (port < length ports.init)
        × (own t ≡ (record (s.global) { ports = some (marked ports port) }, s.nf_mem, s.core_mem))
  unfolding mark_init
  mark_ok port ports s t there h = ground arith

  mark_err : (port : ℕ) (e : InitError) (s t : System W) → mark_init d port s ≢ err e t
  unfolding mark_init
  mark_err port e s t h = ground arith

  -- Where the ports can be read, a port that is brought up is in range and marked, and nothing else
  -- that the manager holds changes.
  pub init_port_ok :
      (port : ℕ) (ports : PortInfo) (s t : System W)
      → s.global.ports ≡ some ports
      → init_port d port s ≡ ok tt t
      → (port < length ports.init)
        × (own t ≡ (record (s.global) { ports = some (marked ports port) }, s.nf_mem, s.core_mem))
  unfolding init_port Keeps
  init_port_ok port ports s t there h =
      let (a, s1, e1, h1) = and_then_ok (bring_up d port s.global.port_conf s) _ h in
      let kept : own s1 ≡ own s =
        ap (λ r. own (final r)) (sym e1) ∙ bring_up-Keeps port s.global.port_conf s in
      let (lt, eq) = mark_ok port ports s1 t (ap (λ o. o.0.ports) kept ∙ there) h1 in
      (lt, eq ∙ ap (λ o. (record (o.0) { ports = some (marked ports port) }, o.1, o.2)) kept)

  err_kept :
      (port : ℕ) (e : InitError) (s t : System W) (r : Run InitError (System W) (Unit {0}))
      → own (final r) ≡ own s
      → and_then r (λ _. mark_init d port) ≡ err e t
      → own t ≡ own s
  err_kept port e s t (ok a s1) k h = absurd (mark_err port e s1 t h)
  err_kept port e s t (err e1 s1) k h = cc
  err_kept port e s t (panic p s1) k h = cc
  err_kept port e s t (fault s1) k h = cc
  err_kept port e s t (exit s1) k h = cc
  err_kept port e s t (out_of_fuel s1) k h = cc

  -- An error leaves all that the manager holds as it was: the port is not marked.
  pub init_port_err :
      (port : ℕ) (e : InitError) (s t : System W) → init_port d port s ≡ err e t → own t ≡ own s
  unfolding init_port Keeps
  init_port_err port e s t h =
      err_kept port e s t (bring_up d port s.global.port_conf s)
        (bring_up-Keeps port s.global.port_conf s) h
