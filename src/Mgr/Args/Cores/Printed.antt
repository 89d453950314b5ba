-- ===== src/Mgr/Args/Cores/Printed.antt =====
-- The cores that `parse_nf_cores` of onvm_mgr/src/mgr/get_args.rs prints.
use mathlib.Core.Path.{subst}
use rust_onvm_v.Base.{
  ℕ, zero, suc, ◌+◌, ◌≤◌, ◌<◌, ◌≡◌, ◌∙◌, ap, refl, arith, List, [], ◌∷◌, some, ok, Bool, true,
  false, not, bind_ok, index_at_ok, deref_ok, checked_pred, checked_pred_ok, get_elem?,
  if◌then◌else◌, ◌>>=◌, ◌>>◌, Cmd,
}
use rust_onvm_v.Nflib.Structs.Packets.{Ptr}
use rust_onvm_v.Nflib.Structs.Ports.{CoreStatus}
use rust_onvm_v.Mgr.System.{System}
use rust_onvm_v.Mgr.Args.{ArgError, print_loop}

-- `k` numbers from `i` on.
unfoldable pub numbers_from : ℕ → ℕ → List ℕ
numbers_from i zero = []
numbers_from i (suc k) = i ∷ numbers_from (suc i) k

-- Core `j` is there, and on or off.
abbrev pub IsCore : {W : Type 0} → System W → ℕ → Bool → Type 0
IsCore s j on =
    (p : Ptr) × (c : CoreStatus) × (get_elem? s.global.cores j ≡ some p)
    × (s.core_mem p ≡ some c)
    × (c.enabled ≡ on)

from_zero : (k : ℕ) → k ≡ 0 + k
from_zero k = omega arith

no_more : (i : ℕ) → i + 0 ≡ i
no_more i = omega arith

next : (i : ℕ) → i + 1 ≡ suc i
next i = omega arith

shifted : (i k : ℕ) → i + suc k ≡ suc i + k
shifted i k = omega arith

module _ {W : Type 0} (num : ℕ) (s : System W) where
  abbrev after_test : ℕ → ℕ → ℕ → Bool → Cmd ArgError (System W) (List ℕ)
  after_test n i count on =
      if not on
      then print_loop n (suc i) num count
      else do checked_pred num; rest ← print_loop n (suc i) num (count + 1); ok (i ∷ rest)

  round_lem :
      (n i count : ℕ) (on : Bool)
      → IsCore s count on
      → print_loop (suc n) i num count s ≡ after_test n i count on s
  unfolding print_loop
  round_lem n i count on (p, c, slot, here, is) =
      bind_ok _ (index_at_ok s.global.cores count s slot)
      ∙ bind_ok _ (deref_ok s here)
      ∙ ap (λ b. after_test n i count b s) is

  -- Once a core is off, nothing more is printed.
  pub stuck : (n i count : ℕ) → IsCore s count false → print_loop n i num count s ≡ ok [] s
  unfolding print_loop
  stuck zero i count off = refl
  stuck (suc n) i count off = round_lem n i count false off ∙ stuck n (suc i) count off

  rounds_on :
      (k n i : ℕ)
      → 0 < num
      → k ≤ n
      → ((j : ℕ) → i ≤ j → j < i + k → IsCore s j true)
      → (k < n → IsCore s (i + k) false)
      → print_loop n i num i s ≡ ok (numbers_from i k) s
  unfolding numbers_from print_loop
  rounds_on zero zero i some_core room on off = refl
  rounds_on zero (suc n) i some_core room on off =
      stuck (suc n) i i (subst (λ j. IsCore s j false) (no_more i) (off (omega arith)))
  rounds_on (suc k) zero i some_core room on off = absurd (omega arith)
  rounds_on (suc k) (suc n) i some_core room on off =
      round_lem n i i true (on i (omega arith) (omega arith))
      ∙ bind_ok _ (checked_pred_ok s some_core)
      ∙ bind_ok _ (
          ap (λ j. print_loop n (suc i) num j s) (next i)
          ∙ rounds_on k n (suc i) some_core (omega arith)
              (λ j from to. on j (omega arith) (omega arith))
              (λ more. subst (λ j. IsCore s j false) (shifted i k) (off (omega arith))))

  -- Where at least one core was counted, the first `k` of the cores are on and the next, if there is
  -- one among `max_cores`, is off, the listing ends with the numbers of those `k` cores: a core that
  -- is on behind one that is off is not listed. The state stays as it was.
  pub print_loop-leading :
      (max_cores k : ℕ)
      → 0 < num
      → k ≤ max_cores
      → ((j : ℕ) → j < k → IsCore s j true)
      → (k < max_cores → IsCore s k false)
      → print_loop max_cores 0 num 0 s ≡ ok (numbers_from 0 k) s
  print_loop-leading max_cores k some_core room on off =
      rounds_on k max_cores 0 some_core room (λ j from to. on j (omega arith))
        (λ more. subst (λ j. IsCore s j false) (from_zero k) (off more))
