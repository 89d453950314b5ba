-- ===== src/Mgr/Frame.antt =====
-- What a command leaves alone: a view of the state that is the same however the command ends.
use rust_onvm_v.Base.{
  arith, ℕ, List, Option, none, some, Panic, index_at, deref, ◌≡◌, ◌∙◌, refl, Run, Cmd, ok, err,
  panic, fault, exit, out_of_fuel, and_then, final, ◌>>=◌, ◌>>◌, Bool, true, false, if◌then◌else◌,
}

module _ {E S V : Type 0} (view : S → V) where
  -- However the command ends, the view is what it was.
  unfoldable pub Keeps : {A : Type 0} → Cmd E S A → Type 0
  Keeps m = (s : S) → view (final (m s)) ≡ view s

  pub Keeps-intro : {A : Type 0} (m : Cmd E S A) → ((s : S) → view (final (m s)) ≡ view s) → Keeps m
  unfolding Keeps
  Keeps-intro m h = h

  pub Keeps-elim : {A : Type 0} (m : Cmd E S A) → Keeps m → (s : S) → view (final (m s)) ≡ view s
  unfolding Keeps
  Keeps-elim m h s = h s

  -- After a command whose end has a view, what keeps the view can follow.
  pub bind_final :
      {A B : Type 0} (r : Run E S A) (k : A → Cmd E S B)
      → ((a : A) → Keeps (k a))
      → view (final (and_then r k)) ≡ view (final r)
  unfolding Keeps
  bind_final (ok a s) k h = h a s
  bind_final (err e s) k h = refl
  bind_final (panic p s) k h = refl
  bind_final (fault s) k h = refl
  bind_final (exit s) k h = refl
  bind_final (out_of_fuel s) k h = refl

  pub Keeps-bind :
      {A B : Type 0} (m : Cmd E S A) (k : A → Cmd E S B)
      → Keeps m
      → ((a : A) → Keeps (k a))
      → Keeps (m >>= k)
  unfolding Keeps
  Keeps-bind m k h g s = bind_final (m s) k g ∙ h s

  pub Keeps-seq :
      {A B : Type 0} (m : Cmd E S A) (k : Cmd E S B) → Keeps m → Keeps k → Keeps (m >> k)
  unfolding Keeps
  Keeps-seq m k h g s = bind_final (m s) (λ _. k) (λ _. g) ∙ h s

  pub Keeps-if :
      {A : Type 0} (b : Bool) (m k : Cmd E S A) → Keeps m → Keeps k → Keeps (if b then m else k)
  Keeps-if true m k h g = h
  Keeps-if false m k h g = g

  pub Keeps-read :
      {A B : Type 0} (f : S → A) (k : A → Cmd E S B)
      → ((a : A) → Keeps (k a))
      → Keeps (λ s. k (f s) s)
  unfolding Keeps
  Keeps-read f k h s = h (f s) s

-- Commands that only read.
module _ (E : Type 0) {S V : Type 0} (view : S → V) where
  pub Keeps-ok : {A : Type 0} (a : A) → Keeps {E = E} view (ok a)
  unfolding Keeps
  Keeps-ok a s = refl

  pub Keeps-panic : (A : Type 0) (p : Panic) → Keeps {E = E} view {A = A} (panic p)
  unfolding Keeps
  Keeps-panic A p s = refl

  pub Keeps-index_at : {A : Type 0} (xs : List A) (i : ℕ) → Keeps {E = E} view (index_at xs i)
  unfolding Keeps
  Keeps-index_at xs i s = ground arith

  pub Keeps-deref : {A : Type 0} (o : Option A) → Keeps {E = E} view (deref o)
  unfolding Keeps
  Keeps-deref none s = refl
  Keeps-deref (some a) s = refl
