-- ===== src/Mgr/Init/Port/Queues.antt =====
-- The queues that `init_port` of onvm_mgr/src/mgr/init.rs asks a device for: a DPDK that also keeps
-- a log of the calls about queues and of the start.
use mathlib.Core.List.{append_assoc}
use rust_onvm_v.Base.{
  ℕ, ◌-◌, ◌%◌, ◌^◌, ◌≤◌, ◌≡◌, ◌∙◌, sym, ap, arith, List, [], ◌∷◌, ◌++◌, ok, Cmd, ◌>>=◌, ◌>>◌,
  and_then_ok,
}
use rust_onvm_v.Mgr.Global.{EthConf}
use rust_onvm_v.Mgr.System.{System}
use rust_onvm_v.Mgr.Init.Dpdk.{InitDpdk, QueueArgs}
use rust_onvm_v.Mgr.Init.Port.{
  InitError, tx_ring_count, get_info, local_conf, configure, adjust, rx_queue, tx_queue, each_queue,
  queue_args, promiscuous, start, mark_init, bring_up, init_port,
}

-- A device is configured for a number of queues of either kind, a queue is set up, or the device
-- is started.
pub data QueueCall : Type 0 where
  configured : (port rx_rings tx_rings : ℕ) → QueueCall
  rx_set : (port queue : ℕ) → QueueCall
  tx_set : (port queue : ℕ) → QueueCall
  started : (port : ℕ) → QueueCall

-- The calls, the last one first, beside the world.
abbrev pub Logged : Type 0 → Type 0
Logged W = W × List QueueCall

abbrev beside : {W A : Type 0} → A × W → List QueueCall → A × Logged W
beside (a, w) log = (a, (w, log))

abbrev pub logged : {W : Type 0} → InitDpdk W → InitDpdk (Logged W)
logged d = record {
  lcore_count = λ w. d.lcore_count w.0;
  dev_info_get = λ p w. beside (d.dev_info_get p w.0) w.1;
  dev_configure = λ p rx tx c w. beside (d.dev_configure p rx tx c w.0) (configured p rx tx ∷ w.1);
  adjust_nb_rx_tx_desc = λ p rx tx w. beside (d.adjust_nb_rx_tx_desc p rx tx w.0) w.1;
  rx_queue_setup = λ a w. beside (d.rx_queue_setup a w.0) (rx_set a.port a.queue ∷ w.1);
  tx_queue_setup = λ a w. beside (d.tx_queue_setup a w.0) (tx_set a.port a.queue ∷ w.1);
  promiscuous_enable = λ p w. beside (d.promiscuous_enable p w.0) w.1;
  dev_start = λ p w. beside (d.dev_start p w.0) (started p ∷ w.1);
  link_get_nowait = λ p w. beside (d.link_get_nowait p w.0) w.1;
  delay_us_sleep = λ n w. (d.delay_us_sleep n w.0, w.1);
  mempool_create = λ name n e c p w. beside (d.mempool_create name n e c p w.0) w.1;
  ring_create = λ n f w. beside (d.ring_create n f w.0) w.1;
  memzone_reserve = λ z n w. beside (d.memzone_reserve z n w.0) w.1;
  calloc = λ n e w. beside (d.calloc n e w.0) w.1;
  macaddr_get = λ p a w. beside (d.macaddr_get p a w.0) w.1;
}

module _ {W : Type 0} (d : InitDpdk W) where
  -- Where the command returns, it has made just these calls.
  unfoldable Logs : {A : Type 0} → Cmd InitError (System (Logged W)) A → List QueueCall → Type 0
  Logs {A} m cs = (s t : System (Logged W)) (a : A) → m s ≡ ok a t → t.world.1 ≡ cs ++ s.world.1

  Logs-bind :
      {A B : Type 0} (m : Cmd InitError (System (Logged W)) A)
      (k : A → Cmd InitError (System (Logged W)) B) (cs ds : List QueueCall)
      → Logs m cs
      → ((a : A) → Logs (k a) ds)
      → Logs (m >>= k) (ds ++ cs)
  unfolding Logs
  Logs-bind m k cs ds h g s t b e =
      let (a, s1, e1, e2) = and_then_ok (m s) k e in
      g a s1 t b e2 ∙ ap (λ l. ds ++ l) (h s s1 a e1) ∙ sym (append_assoc ds cs s.world.1)

  get_info-Logs : (port : ℕ) → Logs (get_info (logged d) port) []
  unfolding Logs get_info
  get_info-Logs port s t a e = ground arith

  configure-Logs :
      (port n : ℕ) (c : EthConf)
      → Logs (configure (logged d) port n c) (configured port 1 (n % 2 ^ 16) ∷ [])
  unfolding Logs configure
  configure-Logs port n c s t a e = ground arith

  adjust-Logs : (port : ℕ) → Logs (adjust (logged d) port) []
  unfolding Logs adjust
  adjust-Logs port s t a e = ground arith

  rx_queue-Logs : (a : QueueArgs) → Logs (rx_queue (logged d) a) (rx_set a.port a.queue ∷ [])
  unfolding Logs rx_queue
  rx_queue-Logs q s t a e = ground arith

  tx_queue-Logs : (a : QueueArgs) → Logs (tx_queue (logged d) a) (tx_set a.port a.queue ∷ [])
  unfolding Logs tx_queue
  tx_queue-Logs q s t a e = ground arith

  promiscuous-Logs : (port : ℕ) → Logs (promiscuous (logged d) port) []
  unfolding Logs promiscuous
  promiscuous-Logs port s t a e = ground arith

  start-Logs : (port : ℕ) → Logs (start (logged d) port) (started port ∷ [])
  unfolding Logs start
  start-Logs port s t a e = ground arith

  mark_init-Logs : (port : ℕ) → Logs (mark_init (logged d) port) []
  unfolding Logs mark_init
  mark_init-Logs port s t a e = ground arith

  once-Logs :
      (setup : ℕ → Cmd InitError (System (Logged W)) (Unit {0})) (cs : List QueueCall)
      → Logs (setup 0) cs
      → Logs (each_queue (logged d) setup 1 0) cs
  unfolding Logs each_queue
  once-Logs setup cs h s t a e =
      let (u, s1, e1, e2) = and_then_ok (setup 0 s) _ e in ground (arith, h s s1 u e1)

  -- What follows once the number of transmission queues is known.
  rest : ℕ → EthConf → ℕ → Cmd InitError (System (Logged W)) (Unit {0})
  rest port conf tx_rings = do
    info ← get_info (logged d) port
    configure (logged d) port tx_rings (local_conf conf info)
    (rx_size, tx_size) ← adjust (logged d) port
    each_queue (logged d)
        (λ q. rx_queue (logged d) (queue_args port q rx_size (local_conf conf info).rx_offloads)) 1
        0
    each_queue (logged d) (λ q. tx_queue (logged d) (queue_args port q tx_size conf.tx_offloads)) 1
        0
    promiscuous (logged d) port
    start (logged d) port

  abbrev calls : ℕ → ℕ → List QueueCall
  calls port tx_rings =
      started port ∷ tx_set port 0 ∷ rx_set port 0 ∷ configured port 1 (tx_rings % 2 ^ 16) ∷ []

  rest-Logs :
      (port : ℕ) (conf : EthConf) (tx_rings : ℕ)
      → Logs (rest port conf tx_rings) (calls port tx_rings)
  unfolding rest
  rest-Logs port conf tx_rings = Logs-bind _ _ [] (calls port tx_rings) (get_info-Logs port) λ info.
      Logs-bind _ _ _ (started port ∷ tx_set port 0 ∷ rx_set port 0 ∷ [])
        (configure-Logs port tx_rings _)
        λ _.
          Logs-bind _ _ [] (started port ∷ tx_set port 0 ∷ rx_set port 0 ∷ []) (adjust-Logs port)
            λ sizes.
              Logs-bind _ _ _ (started port ∷ tx_set port 0 ∷ []) (once-Logs _ _ (rx_queue-Logs _))
                λ _. Logs-bind _ _ _ (started port ∷ []) (once-Logs _ _ (tx_queue-Logs _)) λ _.
                  Logs-bind _ _ [] (started port ∷ []) (promiscuous-Logs port) λ _. start-Logs port

  ring_count :
      (s t : System (Logged W)) (n : ℕ)
      → tx_ring_count (logged d) s ≡ ok n t
      → (2 ≤ d.lcore_count s.world.0) × (n ≡ d.lcore_count s.world.0 - 2) × (t ≡ s)
  unfolding tx_ring_count
  ring_count s t n e = ground arith

  -- A port that is brought up found two logical cores or more, and these calls were made for it in
  -- this order: it is configured for one queue
  -- to receive and for two queues to transmit fewer than there are logical cores, up to wrap-around;
  -- the set-up of one queue of either kind is called for; and the device is started.
  pub init_port-calls :
      (port : ℕ) (s t : System (Logged W))
      → init_port (logged d) port s ≡ ok tt t
      → (2 ≤ d.lcore_count s.world.0)
        × (t.world.1
            ≡ started port
              ∷ tx_set port 0
              ∷ rx_set port 0
              ∷ configured port 1 ((d.lcore_count s.world.0 - 2) % 2 ^ 16)
              ∷ s.world.1)
  unfolding init_port bring_up rest Logs
  init_port-calls port s t e =
      let (a, s1, e1, e2) = and_then_ok (bring_up (logged d) port s.global.port_conf s) _ e in
      let (n, s2, e3, e4) = and_then_ok (tx_ring_count (logged d) s) _ e1 in
      let (many, count, same) = ring_count s s2 n e3 in
      (
        many,
        mark_init-Logs port s1 t tt e2
            ∙ rest-Logs port s.global.port_conf n s2 s1 a e4
            ∙ ap (λ u. calls port n ++ u.world.1) same
            ∙ ap (λ k. calls port k ++ s.world.1) count,
      )
