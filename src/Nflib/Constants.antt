-- ===== src/Nflib/Constants.antt =====
-- onvm_mgr/src/nflib/constants.rs, as far as the modelled code reads it, and three constants of
-- the DPDK bindings, capsule-ffi/src/bindings_rustdoc.rs.
use rust_onvm_v.Base.{ℕ, Bool, false, List, [], ◌∷◌}

-- The states of an NF.
abbrev pub nf_waiting_for_id : ℕ
nf_waiting_for_id = 0

abbrev pub nf_starting : ℕ
nf_starting = 1

abbrev pub nf_running : ℕ
nf_running = 2

abbrev pub nf_paused : ℕ
nf_paused = 3

abbrev pub nf_stopped : ℕ
nf_stopped = 4

abbrev pub nf_id_conflict : ℕ
nf_id_conflict = 5

abbrev pub nf_service_max : ℕ
nf_service_max = 7

abbrev pub nf_service_count_max : ℕ
nf_service_count_max = 8

-- Sizes.
abbrev pub max_nfs : ℕ
max_nfs = 128

abbrev pub max_services : ℕ
max_services = 32

abbrev pub max_nfs_per_service : ℕ
max_nfs_per_service = 32

abbrev pub onvm_max_chain_length : ℕ
onvm_max_chain_length = 4

abbrev pub num_mbufs : ℕ
num_mbufs = 32767

abbrev pub packet_read_size : ℕ
packet_read_size = 32

abbrev pub onvm_nf_share_cores_default : Bool
onvm_nf_share_cores_default = false

abbrev pub manual_core_assignment_bit : ℕ
manual_core_assignment_bit = 0

-- `SHARE_CORE_BIT` is declared a `bool`, `true`; read as a bit number it is 1.
abbrev pub share_core_bit : ℕ
share_core_bit = 1

abbrev pub pkt_ttl_multiplier : ℕ
pkt_ttl_multiplier = 1000000

abbrev pub time_ttl_multiplier : ℕ
time_ttl_multiplier = 1

-- The 40 bytes of the symmetric RSS key.
abbrev pub rss_symmetric_key : List ℕ
rss_symmetric_key =
    0x6d ∷ 0x5a ∷ 0x6d ∷ 0x5a ∷ 0x6d ∷ 0x5a ∷ 0x6d ∷ 0x5a ∷ 0x6d ∷ 0x5a ∷ 0x6d ∷ 0x5a ∷ 0x6d ∷ 0x5a
    ∷ 0x6d ∷ 0x5a ∷ 0x6d ∷ 0x5a ∷ 0x6d ∷ 0x5a ∷ 0x6d ∷ 0x5a ∷ 0x6d ∷ 0x5a ∷ 0x6d ∷ 0x5a ∷ 0x6d
    ∷ 0x5a ∷ 0x6d ∷ 0x5a ∷ 0x6d ∷ 0x5a ∷ 0x6d ∷ 0x5a ∷ 0x6d ∷ 0x5a ∷ 0x6d ∷ 0x5a ∷ 0x6d ∷ 0x5a ∷ []

-- `RTE_MAX_ETHPORTS`.
abbrev pub rte_max_ethports : ℕ
rte_max_ethports = 32

-- The names under which pools are looked up.
pub data PoolName : Type 0 where
  pktmbuf_pool_name nf_mempool_name nf_msg_pool_name : PoolName
