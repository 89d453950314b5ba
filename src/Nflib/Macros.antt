-- ===== src/Nflib/Macros.antt =====
-- onvm_mgr/src/nflib/funcs_macros.rs. The crate `bit_field` and the DPDK functions are parameters.
pub mod Names
use rust_onvm_v.Base.{
  ℕ, ◌≡◌, ◌≢◌, ◌<◌, Bool, true, false, List, Option, none, some, index_out_of_bounds, Cmd, err, ok,
  ◌>>=◌, deref, panic, get, modify, ltb, ◌==◌, if◌then◌else◌, set,
}
use rust_onvm_v.Nflib.Constants.{nf_running}
use rust_onvm_v.Nflib.Structs.Packets.{Ptr, OnvmPktMeta}
use rust_onvm_v.Nflib.Structs.Ports.{EtherAddr, get_mac}
use rust_onvm_v.Nflib.Structs.Nf.{OnvmNf}

-- `BitField for u8` of the crate `bit_field`, below its documented panic at a bit of 8 or more.
pub record BitField : Type 0 where
  pub get_bit : ℕ → ℕ → Bool
  pub set_bit : ℕ → ℕ → Bool → ℕ

-- The flags are the state of these commands, which cannot fail but by a panic.
module _ (b : BitField) where
  unfoldable pub onvm_check_bit : ℕ → Cmd ⊥ ℕ Bool
  onvm_check_bit n flags =
      if ltb n 8 then ok (b.get_bit flags n) flags else panic index_out_of_bounds flags

  unfoldable pub onvm_set_bit : ℕ → Cmd ⊥ ℕ (Unit {0})
  onvm_set_bit n flags =
      if ltb n 8 then ok tt (b.set_bit flags n true) else panic index_out_of_bounds flags

  unfoldable pub onvm_clear_bit : ℕ → Cmd ⊥ ℕ (Unit {0})
  onvm_clear_bit n flags =
      if ltb n 8 then ok tt (b.set_bit flags n false) else panic index_out_of_bounds flags

-- What a packet's `udata64` points at; address 0 is null.
abbrev pub MetaStore : Type 0
MetaStore = Ptr → Option OnvmPktMeta

unfoldable pub onvm_get_pkt_name : Ptr → Cmd ⊥ MetaStore (Option OnvmPktMeta)
onvm_get_pkt_name udata64 =
    if udata64 == 0
    then (λ s. ok none s)
    else (do s ← get; m ← deref (s udata64); (λ t. ok (some m) t))

unfoldable pub onvm_get_pkt_chain_index : Ptr → Cmd ⊥ MetaStore (Option ℕ)
unfolding onvm_get_pkt_name
onvm_get_pkt_chain_index udata64 = do
  found ← onvm_get_pkt_name udata64
  elim found [ some m ↦ λ t. ok (some m.chain_index) t | none ↦ λ t. ok none t ]

-- `mac_addr_bytes` is a copy of the array: what is written stays in it. The result is that array,
-- with the address that the caller keeps.
unfoldable pub onvm_get_fake_macaddr : EtherAddr → List ℕ × EtherAddr
unfolding get_mac
onvm_get_fake_macaddr mac_addr =
    let mac_addr_bytes = get_mac mac_addr in
    let mac_addr_bytes = set mac_addr_bytes 0 2 in
    let mac_addr_bytes = set mac_addr_bytes 1 0 in
    let mac_addr_bytes = set mac_addr_bytes 2 0 in (mac_addr_bytes, mac_addr)

-- `rte_eth_dev_is_valid_port` and the address that `rte_eth_macaddr_get` writes, which leaves the
-- address alone where it fails.
pub record PortAddresses : Type 0 where
  pub is_valid_port : ℕ → ℕ
  pub macaddr_get : ℕ → EtherAddr → EtherAddr

module _ (p : PortAddresses) where
  unfoldable pub onvm_get_macaddr : ℕ → Cmd ℕ EtherAddr (Unit {0})
  onvm_get_macaddr port_id =
      if p.is_valid_port port_id == 1 then modify (p.macaddr_get port_id) else λ mac_addr.
      err 1 mac_addr

unfoldable pub onvm_nf_is_valid : OnvmNf → Bool
onvm_nf_is_valid nf = nf.status == nf_running
