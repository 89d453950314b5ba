-- ===== src/Base/Commands.antt =====
-- Commands of the program: they read and write a state, and end in one of six ways.
use mathlib.Core.Path.{◌≡◌, refl, ap}
use mathlib.Core.Option.{Option, none, some}
use mathlib.Core.Bool.{Bool, true, false}
use mathlib.Core.List.{List}
use Prim.Native.Nat.{ℕ, ◌-◌, ◌<◌}
use native.Mathlib.Omega.{arith}
use rust_onvm_v.Base.Tests.{◌==◌, if◌then◌else◌}
use rust_onvm_v.Base.Lists.{get_elem?}

-- Why Rust code panics.
pub data Panic : Type 0 where
  index_out_of_bounds overflow division_by_zero unwrap_failed explicit : Panic

-- `E` is the type of the errors that `?` passes on. `fault` is a read or a write through a null or
-- dangling pointer, `exit` a call of `rte_exit`, and `out_of_fuel` a loop that is still running.
pub data Run (E S A : Type 0) : Type 0 where
  ok : A → S → Run E S A
  err : E → S → Run E S A
  panic : Panic → S → Run E S A
  fault : S → Run E S A
  exit : S → Run E S A
  out_of_fuel : S → Run E S A

abbrev pub Cmd : Type 0 → Type 0 → Type 0 → Type 0
Cmd E S A = S → Run E S A

module _ {E S A B : Type 0} where
  abbrev pub and_then : Run E S A → (A → Cmd E S B) → Run E S B
  and_then (ok a s) k = k a s
  and_then (err e s) k = err e s
  and_then (panic p s) k = panic p s
  and_then (fault s) k = fault s
  and_then (exit s) k = exit s
  and_then (out_of_fuel s) k = out_of_fuel s

  infixl 5 ◌>>=◌ ◌>>◌
  abbrev pub ◌>>=◌ : Cmd E S A → (A → Cmd E S B) → Cmd E S B
  m >>= k = λ s. and_then (m s) k

  abbrev pub ◌>>◌ : Cmd E S A → Cmd E S B → Cmd E S B
  m >> k = λ s. and_then (m s) (λ _. k)

module _ {E S A : Type 0} where
  abbrev pub fail : E → Cmd E S A
  fail e s = err e s

  -- An index into a vector or an array.
  abbrev pub index_at : List A → ℕ → Cmd E S A
  index_at xs i s = elim (get_elem? xs i) [ none ↦ panic index_out_of_bounds s | some x ↦ ok x s ]

  -- A pointer's target, if the address holds one.
  abbrev pub deref : Option A → Cmd E S A
  deref none s = fault s
  deref (some a) s = ok a s

  abbrev pub unwrap : Option A → Cmd E S A
  unwrap none s = panic unwrap_failed s
  unwrap (some a) s = ok a s

  abbrev pub final : Run E S A → S
  final (ok _ s) = s
  final (err _ s) = s
  final (panic _ s) = s
  final (fault s) = s
  final (exit s) = s
  final (out_of_fuel s) = s

  -- Nothing else than fuel keeps the command from going on.
  abbrev pub is_running : Run E S A → Bool
  is_running (out_of_fuel _) = true
  is_running _ = false

  -- The caller gets a value or an error.
  unfoldable pub returns : Run E S A → Bool
  returns (ok _ _) = true
  returns (err _ _) = true
  returns _ = false

  -- There is no error to pass on.
  unfoldable pub has_no_err : Run E S A → Bool
  has_no_err (err _ _) = false
  has_no_err _ = true

module _ {E S : Type 0} where
  abbrev pub skip : Cmd E S (Unit {0})
  skip s = ok tt s

  abbrev pub modify : (S → S) → Cmd E S (Unit {0})
  modify f s = ok tt (f s)

  abbrev pub get : Cmd E S S
  get s = ok s s

  -- `x -= 1` on an unsigned integer, with overflow checks.
  abbrev pub checked_pred : ℕ → Cmd E S ℕ
  checked_pred n s = if n == 0 then panic overflow s else ok (n - 1) s

module _ {E S A B : Type 0} where
  -- What a command that returned did on its way.
  pub and_then_ok :
      (r : Run E S A) (k : A → Cmd E S B) {b : B} {t : S}
      → and_then r k ≡ ok b t
      → (a : A) × (s : S) × (r ≡ ok a s) × (k a s ≡ ok b t)
  and_then_ok (ok a s) k h = (a, s, refl, h)
  and_then_ok (err e s) k h = cc
  and_then_ok (panic p s) k h = cc
  and_then_ok (fault s) k h = cc
  and_then_ok (exit s) k h = cc
  and_then_ok (out_of_fuel s) k h = cc

  pub returns-first :
      (r : Run E S A) (k : A → Cmd E S B) → returns r ≡ false → returns (and_then r k) ≡ false
  unfolding returns
  returns-first (panic p s) k h = refl
  returns-first (fault s) k h = refl
  returns-first (exit s) k h = refl
  returns-first (out_of_fuel s) k h = refl
  returns-first (ok a s) k h = cc
  returns-first (err e s) k h = cc

  pub returns-rest :
      (r : Run E S A) (k : A → Cmd E S B)
      → has_no_err r ≡ true
      → ((a : A) (s : S) → returns (k a s) ≡ false)
      → returns (and_then r k) ≡ false
  unfolding returns has_no_err
  returns-rest (ok a s) k h g = g a s
  returns-rest (err e s) k h g = cc
  returns-rest (panic p s) k h g = refl
  returns-rest (fault s) k h g = refl
  returns-rest (exit s) k h g = refl
  returns-rest (out_of_fuel s) k h g = refl

  pub no_err-bind :
      (r : Run E S A) (k : A → Cmd E S B)
      → has_no_err r ≡ true
      → ((a : A) (s : S) → has_no_err (k a s) ≡ true)
      → has_no_err (and_then r k) ≡ true
  unfolding has_no_err
  no_err-bind (ok a s) k h g = g a s
  no_err-bind (err e s) k h g = cc
  no_err-bind (panic p s) k h g = refl
  no_err-bind (fault s) k h g = refl
  no_err-bind (exit s) k h g = refl
  no_err-bind (out_of_fuel s) k h g = refl

  -- A command whose first part returns goes on with the rest.
  pub bind_ok :
      {r : Run E S A} {a : A} {t : S} (k : A → Cmd E S B) → r ≡ ok a t → and_then r k ≡ k a t
  bind_ok k e = ap (λ x. and_then x k) e

  -- A panic ends all that was to follow.
  pub bind_panic :
      {r : Run E S A} {p : Panic} {t : S} (k : A → Cmd E S B)
      → r ≡ panic p t
      → and_then r k ≡ panic p t
  bind_panic k e = ap (λ x. and_then x k) e

module _ {E S : Type 0} where
  pub checked_pred_ok : {n : ℕ} (s : S) → 0 < n → checked_pred {E = E} n s ≡ ok (n - 1) s
  checked_pred_ok s h = ground arith

module _ {E S A : Type 0} where
  pub index_at_ok :
      (xs : List A) (i : ℕ) (s : S) {x : A}
      → get_elem? xs i ≡ some x
      → index_at {E = E} xs i s ≡ ok x s
  index_at_ok xs i s e = rw (e, index_at)

  pub deref_ok : {o : Option A} {a : A} (s : S) → o ≡ some a → deref {E = E} o s ≡ ok a s
  deref_ok s e = rw (e, deref)

  pub unwrap_ok : {o : Option A} {a : A} (s : S) → o ≡ some a → unwrap {E = E} o s ≡ ok a s
  unwrap_ok s e = rw (e, unwrap)
