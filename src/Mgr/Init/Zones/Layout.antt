-- ===== src/Mgr/Init/Zones/Layout.antt =====
-- Where a vector points that `init` of onvm_mgr/src/mgr/init.rs has made for a memory zone.
use rust_onvm_v.Base.{
  ℕ, zero, suc, ◌+◌, ◌*◌, ◌<◌, ◌≡◌, ◌∙◌, ap, refl, arith, List, some, false, length, get_elem?,
}
use rust_onvm_v.Nflib.Structs.Packets.{Ptr}
use rust_onvm_v.Mgr.Nf.Stop.Count.{has, Distinct}
use rust_onvm_v.Mgr.Init.Zones.{pointers}
use rust_onvm_v.Mgr.Init.Zones.Laws.{length-pointers}

-- The vector points at `n` places of a size, one behind the other from address 0 on, and no two
-- entries point at the same.
pub record IsLaidOut (n size : ℕ) (ps : List Ptr) : Type 0 where
  pub entries : length ps ≡ n
  pub places : (i : ℕ) → i < n → get_elem? ps i ≡ some (i * size)
  pub apart : Distinct ps

below_all : (n size addr p : ℕ) → p < addr → has p (pointers n size addr) ≡ false
unfolding pointers
below_all zero size addr p h = refl
below_all (suc n) size addr p h = ground (arith, below_all n size (addr + size) p)

pointers-Distinct : (n size addr : ℕ) → 0 < size → Distinct (pointers n size addr)
unfolding pointers
pointers-Distinct zero size addr some_size = tt
pointers-Distinct (suc n) size addr some_size = (
  below_all n size (addr + size) addr (omega arith),
  pointers-Distinct n size (addr + size) some_size,
)

get_elem?-pointers :
    (n size addr i : ℕ) → i < n → get_elem? (pointers n size addr) i ≡ some (addr + i * size)
unfolding pointers
get_elem?-pointers zero size addr i h = absurd (omega arith)
get_elem?-pointers (suc n) size addr zero h = ap some (omega arith)
get_elem?-pointers (suc n) size addr (suc i) h =
    get_elem?-pointers n size (addr + size) i (omega arith) ∙ ap some (omega arith)

-- The vector that a zone is made into is laid out, where what it points at has a size.
pub pointers-IsLaidOut : (n size : ℕ) → 0 < size → IsLaidOut n size (pointers n size 0)
pointers-IsLaidOut n size some_size = record {
  entries = length-pointers n size 0;
  places = λ i h. get_elem?-pointers n size 0 i h ∙ ap some (omega arith);
  apart = pointers-Distinct n size 0 some_size;
}
