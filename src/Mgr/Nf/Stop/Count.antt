-- ===== src/Mgr/Nf/Stop/Count.antt =====
-- Counting the NFs that the manager's pointers lead to.
use rust_onvm_v.Base.{
  ℕ, zero, suc, ◌+◌, ◌<◌, ◌≡◌, ap, refl, arith, List, [], ◌∷◌, Option, none, some, Bool, true,
  false, ◌||◌, ◌==◌, if◌then◌else◌, get_elem?,
}
use rust_onvm_v.Nflib.Structs.Packets.{Ptr}
use rust_onvm_v.Nflib.Structs.Nf.{OnvmNf}
use rust_onvm_v.Mgr.System.{update}

abbrev pub bit : (OnvmNf → Bool) → Option OnvmNf → ℕ
bit test none = 0
bit test (some nf) = if test nf then 1 else 0

abbrev pub count : (OnvmNf → Bool) → (Ptr → Option OnvmNf) → List Ptr → ℕ
count test m [] = 0
count test m (p ∷ ps) = bit test (m p) + count test m ps

abbrev pub has : Ptr → List Ptr → Bool
has p [] = false
has p (q ∷ qs) = (p == q) || has p qs

-- No pointer stands twice in the list.
abbrev pub Distinct : List Ptr → Type 0
Distinct [] = Unit
Distinct (p ∷ ps) = (has p ps ≡ false) × Distinct ps

pub has_get : (ps : List Ptr) (i : ℕ) (p : Ptr) → get_elem? ps i ≡ some p → has p ps ≡ true
has_get [] i p e = cc
has_get (q ∷ qs) zero p e = ground arith
has_get (q ∷ qs) (suc i) p e = ground (arith, has_get qs i p e)

pub Distinct-index :
    (ps : List Ptr) (i j : ℕ) (p : Ptr)
    → Distinct ps
    → get_elem? ps i ≡ some p
    → get_elem? ps j ≡ some p
    → i ≡ j
Distinct-index [] i j p d e f = cc
Distinct-index (q ∷ qs) zero zero p d e f = refl
Distinct-index (q ∷ qs) zero (suc j) p d e f = ground (arith, has_get qs j p f)
Distinct-index (q ∷ qs) (suc i) zero p d e f = ground (arith, has_get qs i p e)
Distinct-index (q ∷ qs) (suc i) (suc j) p d e f = ap suc (Distinct-index qs i j p d.1 e f)

module _ (test : OnvmNf → Bool) (m : Ptr → Option OnvmNf) where
  count-update_out :
      (ps : List Ptr) (p : Ptr) (a : OnvmNf)
      → has p ps ≡ false
      → count test (update m p a) ps ≡ count test m ps
  count-update_out [] p a out = refl
  count-update_out (q ∷ qs) p a out = ground (arith, count-update_out qs p a)

  -- Writing one NF changes the count by what the test says of the old one and of the new one.
  pub count-update :
      (ps : List Ptr) (i : ℕ) (p : Ptr) (old new : OnvmNf)
      → Distinct ps
      → get_elem? ps i ≡ some p
      → m p ≡ some old
      → count test (update m p new) ps + bit test (some old) ≡ count test m ps + bit test (some new)
  count-update [] i p old new d slot here = cc
  count-update (q ∷ qs) zero p old new d slot here = ground (arith, count-update_out qs p new)
  count-update (q ∷ qs) (suc i) p old new d slot here =
      ground (arith, has_get qs i p slot, count-update qs i p old new d.1 slot here)

  pub count_pos :
      (ps : List Ptr) (i : ℕ) (p : Ptr) (nf : OnvmNf)
      → get_elem? ps i ≡ some p
      → m p ≡ some nf
      → test nf ≡ true
      → 0 < count test m ps
  count_pos [] i p nf slot here h = cc
  count_pos (q ∷ qs) zero p nf slot here h = ground arith
  count_pos (q ∷ qs) (suc i) p nf slot here h = omega (arith, count_pos qs i p nf slot here h)
