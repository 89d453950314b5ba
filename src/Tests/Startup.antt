-- ===== src/Tests/Startup.antt =====
-- The initialisation at concrete inputs.
use rust_onvm_v.Base.{
  arith, ◌↔◌, inl, final, is_running, ◌≤◌, false, returns, ℕ, ◌+◌, ◌*◌, ◌≡◌, refl, [], ◌∷◌, ◌++◌,
  length, length-append, List, none, some, ok, true, false, pos,
}
use rust_onvm_v.Nflib.Structs.Ports.{PortInfo, default_ports}
use rust_onvm_v.Mgr.System.{System}
use rust_onvm_v.Mgr.Init.Dpdk.{InitDpdk}
use rust_onvm_v.Mgr.Init.Links.{check_all_ports_link_status}
use rust_onvm_v.Mgr.Init.Links.Laws.{Answers, selected, times, links_up}
use rust_onvm_v.Mgr.Init.Pools.{Sizes}
use rust_onvm_v.Mgr.Init.Links.Bounds.{Counts, links_bounded}
use rust_onvm_v.Mgr.Init.Zones.Layout.{IsLaidOut}
use rust_onvm_v.Nflib.Constants.{max_nfs}
use rust_onvm_v.Mgr.Init.Startup.Ends.{goes_on, reset, ending, init_lem, init-IsLaidOut}
use rust_onvm_v.Mgr.Init.Startup.{Host, Text, split_args, init_ports, init}
use rust_onvm_v.Mgr.Init.Startup.Options.{other_options, init-options}
use rust_onvm_v.Mgr.Init.Startup.Arguments.{Splits, split_args_iff}
use rust_onvm_v.Mgr.Init.Startup.Laws.{dashes, has_no_dashes}
use rust_onvm_v.Main.Run.{main_run, main, main_never_returns}
use rust_onvm_v.Tests.Worlds.{one_running}

-- A device that keeps the ports that it is asked the links of, which are up or down as `status` says.
abbrev listing : ℕ → InitDpdk (List ℕ)
listing status = record {
  lcore_count = λ w. 4;
  dev_info_get = λ p w. ((pos 0, record { tx_offload_capa = 0; flow_type_rss_offloads = 0 }), w);
  dev_configure = λ p rx tx c w. (pos 0, w);
  adjust_nb_rx_tx_desc = λ p rx tx w. ((pos 0, rx, tx), w);
  rx_queue_setup = λ a w. (pos 0, w);
  tx_queue_setup = λ a w. (pos 0, w);
  promiscuous_enable = λ p w. (pos 0, w);
  dev_start = λ p w. (pos 0, w);
  link_get_nowait = λ p w. ((pos 0, record { link_status = status }), w ++ p ∷ []);
  delay_us_sleep = λ n w. w;
  mempool_create = λ name n e c p w. (some n, w);
  ring_create = λ n f w. (some 5, w);
  memzone_reserve = λ z n w. (true, w);
  calloc = λ n e w. (4000, w);
  macaddr_get = λ p a w. (a, w);
}

abbrev lists : (status : ℕ) → Answers (listing status)
lists status = record {
  asked = λ w. w;
  answer = λ p w. refl;
  asked_lem = λ p w. refl;
  delay_lem = λ n w. refl;
}

-- The manager with the ports 4, 1 and 2.
abbrev pub three_ports : PortInfo
three_ports = record default_ports { num_ports = 3; id = 4 ∷ 1 ∷ 2 ∷ [] }

abbrev pub with_three : List ℕ → System (List ℕ)
with_three w = record {
  global = record (one_running.global) { ports = some three_ports };
  nf_mem = one_running.nf_mem;
  core_mem = one_running.core_mem;
  world = w;
}

-- The mask 20 has two of them.
two_selected : selected 20 three_ports 3 0 ≡ some (4 ∷ 2 ∷ [])
unfolding selected
two_selected = refl

links_up_example :
    (w : List ℕ) × (check_all_ports_link_status (listing 1) 20 (with_three [])
      ≡ ok tt (with_three w))
    × (w ≡ [] ++ times 90 (4 ∷ 2 ∷ []))
links_up_example =
    links_up (listing 1) 20 (lists 1) three_ports (4 ∷ 2 ∷ []) (with_three []) (λ p w. refl) refl
      two_selected

abbrev pub sizes : Sizes
sizes = record {
  mbuf = 128;
  pool_private = 4;
  nf_init_cfg = 40;
  nf = 400;
  port_info = 1000;
  core_status = 16;
  configuration = 16;
}

abbrev letter : ℕ → Text
letter c = c ∷ []

no_dashes_in : has_no_dashes (letter b'a' ∷ letter b'b' ∷ []) ≡ true
unfolding has_no_dashes rust_onvm_v.Mgr.Init.Startup.same_text
no_dashes_in = refl

no_dashes_in_port : has_no_dashes ((b'-' ∷ b'p' ∷ []) ∷ []) ≡ true
unfolding has_no_dashes rust_onvm_v.Mgr.Init.Startup.same_text
no_dashes_in_port = refl

split_args_iff_example :
    (split_args (letter b'a' ∷ letter b'b' ∷ dashes ∷ (b'-' ∷ b'p' ∷ []) ∷ [])
      ≡ (letter b'a' ∷ letter b'b' ∷ [], (b'-' ∷ b'p' ∷ []) ∷ []))
    ↔ Splits
        (letter b'a' ∷ letter b'b' ∷ dashes ∷ (b'-' ∷ b'p' ∷ []) ∷ [])
        (letter b'a' ∷ letter b'b' ∷ [])
        ((b'-' ∷ b'p' ∷ []) ∷ [])
split_args_iff_example =
    split_args_iff (letter b'a' ∷ letter b'b' ∷ dashes ∷ (b'-' ∷ b'p' ∷ []) ∷ [])
      (letter b'a' ∷ letter b'b' ∷ []) ((b'-' ∷ b'p' ∷ []) ∷ [])

-- Both sides hold.
told_apart :
    split_args (letter b'a' ∷ letter b'b' ∷ dashes ∷ (b'-' ∷ b'p' ∷ []) ∷ [])
    ≡ (letter b'a' ∷ letter b'b' ∷ [], (b'-' ∷ b'p' ∷ []) ∷ [])
told_apart =
    (split_args_iff (letter b'a' ∷ letter b'b' ∷ dashes ∷ (b'-' ∷ b'p' ∷ []) ∷ [])
        (letter b'a' ∷ letter b'b' ∷ []) ((b'-' ∷ b'p' ∷ []) ∷ [])).1
      (inl ((b'-' ∷ b'p' ∷ []) ∷ [], (refl, no_dashes_in), none, (refl, no_dashes_in_port)))

abbrev big_host : Host (List ℕ)
big_host = record {
  eal_init = λ args w. (true, w);
  eal_cleanup = λ w. (true, w);
  dev_count_avail = λ w. 3;
  num_cpus = 64;
  getopts = λ args. none;
}

main_never_returns_example :
    (returns (init (listing 1) sizes big_host 10 (dashes ∷ []) (with_three [])) ≡ false)
    × (returns (main_run (listing 1) sizes big_host 10 (dashes ∷ []) (with_three [])) ≡ false)
    × (returns (main (listing 1) sizes big_host 10 (dashes ∷ []) (with_three [])) ≡ false)
main_never_returns_example =
    main_never_returns (listing 1) sizes big_host 10 (dashes ∷ []) (with_three [])

more : (w : List ℕ) (p : ℕ) → length (w ++ p ∷ []) ≡ length w + 1
more w p = length-append w (p ∷ [])

abbrev link_counts : Counts (listing 0)
link_counts = record { asked = length; asked_lem = λ p w. more w p; delay_lem = λ n w. refl }

links_bounded_example :
    length (final (check_all_ports_link_status (listing 0) 20 (with_three []))).world ≤ 0 + 90 * 3
    × (is_running (check_all_ports_link_status (listing 0) 20 (with_three [])) ≡ false)
links_bounded_example = links_bounded (listing 0) 20 link_counts three_ports (with_three []) refl

init_example :
    init (listing 1) sizes big_host 10 (dashes ∷ []) (with_three [])
    ≡ ending
        (listing 1)
        sizes
        big_host
        (goes_on big_host (split_args (dashes ∷ [])).0 [])
        (reset (listing 1) sizes big_host (split_args (dashes ∷ [])).0 (with_three []))
init_example = init_lem (listing 1) sizes big_host 10 (dashes ∷ []) (with_three [])

init-IsLaidOut_example :
    IsLaidOut max_nfs 400
      (final (init (listing 1) sizes big_host 10 (dashes ∷ []) (with_three []))).global.nfs
init-IsLaidOut_example =
    init-IsLaidOut (listing 1) sizes big_host 10 (dashes ∷ []) (with_three []) (omega arith) refl
      refl

-- The same arguments for DPDK before `--`, with and without an option of the manager behind it.
abbrev for_dpdk : Text
for_dpdk = letter b'a'

same_first :
    (split_args (for_dpdk ∷ dashes ∷ [])).0
    ≡ (split_args (for_dpdk ∷ dashes ∷ (b'-' ∷ b'p' ∷ []) ∷ [])).0
unfolding split_args rust_onvm_v.Mgr.Init.Startup.split_once rust_onvm_v.Mgr.Init.Startup.same_text
same_first = refl

init-options_example :
    init (listing 1) sizes big_host 6 (for_dpdk ∷ dashes ∷ []) (with_three [])
    ≡ init
        (listing 1)
        sizes
        (other_options big_host (λ args. none) (λ w. 0))
        0
        (for_dpdk ∷ dashes ∷ (b'-' ∷ b'p' ∷ []) ∷ [])
        (with_three [])
init-options_example =
    init-options (listing 1) sizes big_host (λ args. none) (λ w. 0) 6 0 (for_dpdk ∷ dashes ∷ [])
      (for_dpdk ∷ dashes ∷ (b'-' ∷ b'p' ∷ []) ∷ []) (with_three []) same_first
