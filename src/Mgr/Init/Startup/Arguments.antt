-- ===== src/Mgr/Init/Startup/Arguments.antt =====
-- How `init` of onvm_mgr/src/mgr/init.rs tells its arguments apart.
use mathlib.Core.Path.{subst}
use rust_onvm_v.Base.{
  ◌≡◌, ◌↔◌, ◌⊎◌, inl, inr, ◌∙◌, sym, ap, refl, arith, List, [], ◌∷◌, ◌++◌, Option, none, some,
  Bool-cases, true, false,
}
use rust_onvm_v.Mgr.Init.Startup.{Text, same_text, split_once, split_args}
use rust_onvm_v.Mgr.Init.Startup.Laws.{has_no_dashes, dashes, split_once_plain, split_once-dashes}

-- The arguments before the first `--`, and those behind it, if there is one.
abbrev pub Cut : (args before : List Text) → Option (List Text) → Type 0
Cut args before none = (args ≡ before) × (has_no_dashes before ≡ true)
Cut args before (some rest) = (args ≡ before ++ dashes ∷ rest) × (has_no_dashes before ≡ true)

-- The arguments for DPDK stand before the first `--`, those for the manager between it and the
-- next, if there are these; with no `--` the manager has one argument, which is empty.
abbrev pub Splits : (args dpdk own : List Text) → Type 0
Splits args dpdk own =
    ((rest : List Text) × Cut args dpdk (some rest)
      × (more : Option (List Text)) × Cut rest own more)
    ⊎ (Cut args dpdk none × (own ≡ [] ∷ []))

same_text-eq : (a b : Text) → same_text a b ≡ true → a ≡ b
unfolding same_text
same_text-eq [] [] h = refl
same_text-eq (x ∷ xs) (y ∷ ys) h = ground (arith, same_text-eq xs ys)
same_text-eq [] (y ∷ ys) h = cc
same_text-eq (x ∷ xs) [] h = cc

Cut-more :
    (t : Text) (ts before : List Text) (o : Option (List Text))
    → same_text t dashes ≡ false
    → Cut ts before o
    → Cut (t ∷ ts) (t ∷ before) o
unfolding has_no_dashes
Cut-more t ts before none ne (e, h) = (ap (λ l. t ∷ l) e, rw ne h)
Cut-more t ts before (some rest) ne (e, h) = (ap (λ l. t ∷ l) e, rw ne h)

split_once-Cut : (args : List Text) → Cut args (split_once args).0 (split_once args).1
unfolding split_once has_no_dashes
split_once-Cut [] = (refl, refl)
split_once-Cut (t ∷ ts) = elim (Bool-cases (same_text t dashes)) [
  | inl e ↦ rw e (ap (λ a. a ∷ ts) (same_text-eq t dashes e), refl)
  | inr e ↦ rw e (Cut-more t ts (split_once ts).0 (split_once ts).1 e (split_once-Cut ts))
]

Cut-split_once :
    (args before : List Text) (o : Option (List Text))
    → Cut args before o
    → split_once args ≡ (before, o)
Cut-split_once args before none (e, h) = ap split_once e ∙ split_once_plain before h
Cut-split_once args before (some rest) (e, h) = ap split_once e ∙ split_once-dashes before rest h

-- What is made of the first cut.
abbrev picked : List Text × Option (List Text) → List Text × List Text
picked p = elim p.1 as (λ x. List Text × List Text) [
  | none ↦ (p.0, [] ∷ [])
  | some rest ↦ (p.0, (split_once rest).0)
]

picked-Splits :
    (args before : List Text) (o : Option (List Text))
    → Cut args before o
    → Splits args (picked (before, o)).0 (picked (before, o)).1
picked-Splits args before none c = inr (c, refl)
picked-Splits args before (some rest) c = inl (rest, c, (split_once rest).1, split_once-Cut rest)

split_args-Splits : (args : List Text) → Splits args (split_args args).0 (split_args args).1
unfolding split_args
split_args-Splits args =
    picked-Splits args (split_once args).0 (split_once args).1 (split_once-Cut args)

Splits-split_args :
    (args dpdk own : List Text) → Splits args dpdk own → split_args args ≡ (dpdk, own)
unfolding split_args
Splits-split_args args dpdk own (inl (rest, c, more, c1)) =
    ap picked (Cut-split_once args dpdk (some rest) c)
    ∙ ap (λ (p : List Text × Option (List Text)). (dpdk, p.0)) (Cut-split_once rest own more c1)
Splits-split_args args dpdk own (inr (c, e)) =
    ap picked (Cut-split_once args dpdk none c) ∙ ap (λ o. (dpdk, o)) (sym e)

-- The arguments are told apart so, and in no other way: the arguments for DPDK are those before the
-- first `--`, and the manager's own are those between it and the next, or to the end; with no `--`
-- DPDK has all of them, and the manager one that is empty.
pub split_args_iff :
    (args dpdk own : List Text) → (split_args args ≡ (dpdk, own)) ↔ Splits args dpdk own
split_args_iff args dpdk own = (
  (λ h. subst (λ (p : List Text × List Text). Splits args p.0 p.1) h (split_args-Splits args)),
  Splits-split_args args dpdk own,
)
