-- ===== src/Nflib/Macros/Names.antt =====
-- The names of rings, the macros of onvm_mgr/src/nflib/funcs_macros.rs. A text is the list of its
-- bytes.
use rust_onvm_v.Base.{
  ℕ, ◌≡◌, ◌≢◌, ◌∙◌, ap, refl, arith, List, [], ◌∷◌, ◌++◌, length, length-append, decimal,
}
use rust_onvm_v.Mgr.Args.Numbers.{decimal-inj}

-- `MProc_Client_`.
abbrev client : List ℕ
client =
    b'M' ∷ b'P' ∷ b'r' ∷ b'o' ∷ b'c' ∷ b'_' ∷ b'C' ∷ b'l' ∷ b'i' ∷ b'e' ∷ b'n' ∷ b't' ∷ b'_' ∷ []

unfoldable pub get_rx_queue_name : ℕ → List ℕ
get_rx_queue_name n = client ++ (decimal n ++ (b'_' ∷ b'R' ∷ b'X' ∷ []))

unfoldable pub get_tx_queue_name : ℕ → List ℕ
get_tx_queue_name n = client ++ (decimal n ++ (b'_' ∷ b'T' ∷ b'X' ∷ []))

unfoldable pub get_msg_queue_name : ℕ → List ℕ
get_msg_queue_name n =
    (b'N' ∷ b'F' ∷ b'_' ∷ [])
    ++ (decimal n ++ (b'_' ∷ b'M' ∷ b'S' ∷ b'G' ∷ b'_' ∷ b'Q' ∷ b'U' ∷ b'E' ∷ b'U' ∷ b'E' ∷ []))

-- What a ring of an NF is for.
pub data QueueKind : Type 0 where
  rx tx msg : QueueKind

unfoldable pub queue_name : QueueKind → ℕ → List ℕ
queue_name rx n = get_rx_queue_name n
queue_name tx n = get_tx_queue_name n
queue_name msg n = get_msg_queue_name n

∷-inj : (x y : ℕ) (xs ys : List ℕ) → x ∷ xs ≡ y ∷ ys → (x ≡ y) × (xs ≡ ys)
∷-inj x y xs ys e = (cc, cc)

first : (x y : ℕ) (xs ys : List ℕ) → x ≢ y → x ∷ xs ≢ y ∷ ys
first x y xs ys ne e = ne (∷-inj x y xs ys e).0

second : (v w x y : ℕ) (xs ys : List ℕ) → x ≢ y → v ∷ x ∷ xs ≢ w ∷ y ∷ ys
second v w x y xs ys ne e = first x y xs ys ne (∷-inj v w _ _ e).1

start_inj : (ps xs ys : List ℕ) → ps ++ xs ≡ ps ++ ys → xs ≡ ys
start_inj [] xs ys e = e
start_inj (p ∷ ps) xs ys e = start_inj ps xs ys (∷-inj p p _ _ e).1

end_inj :
    (xs ys ss ts : List ℕ) → length ss ≡ length ts → xs ++ ss ≡ ys ++ ts → (xs ≡ ys) × (ss ≡ ts)
end_inj [] [] ss ts h e = (refl, e)
end_inj [] (y ∷ ys) ss ts h e = absurd (omega (arith, ap length e, length-append ys ts))
end_inj (x ∷ xs) [] ss ts h e = absurd (omega (arith, ap length e, length-append xs ss))
end_inj (x ∷ xs) (y ∷ ys) ss ts h e =
    let (same, rest) = ∷-inj x y _ _ e in
    let (starts, ends) = end_inj xs ys ss ts h rest in
    (ap (λ z. z ∷ xs) same ∙ ap (λ zs. y ∷ zs) starts, ends)

numbered :
    (ps ss ts : List ℕ) (a b : ℕ)
    → length ss ≡ length ts
    → ps ++ (decimal a ++ ss) ≡ ps ++ (decimal b ++ ts)
    → (a ≡ b) × (ss ≡ ts)
numbered ps ss ts a b h e =
    let (digits, ends) = end_inj (decimal a) (decimal b) ss ts h (start_inj ps _ _ e) in
    (decimal-inj a b digits, ends)

-- Two rings with the same name are for the same use and of the same number.
pub queue_name-inj :
    (k l : QueueKind) (a b : ℕ) → queue_name k a ≡ queue_name l b → (k ≡ l) × (a ≡ b)
unfolding queue_name get_rx_queue_name get_tx_queue_name get_msg_queue_name
queue_name-inj rx rx a b e = (refl, (numbered client _ _ a b refl e).0)
queue_name-inj tx tx a b e = (refl, (numbered client _ _ a b refl e).0)
queue_name-inj msg msg a b e = (refl, (numbered (b'N' ∷ b'F' ∷ b'_' ∷ []) _ _ a b refl e).0)
queue_name-inj rx tx a b e =
    absurd (second b'_' b'_' b'R' b'T' _ _ (omega arith) (numbered client _ _ a b refl e).1)
queue_name-inj tx rx a b e =
    absurd (second b'_' b'_' b'T' b'R' _ _ (omega arith) (numbered client _ _ a b refl e).1)
queue_name-inj rx msg a b e = absurd (first b'M' b'N' _ _ (omega arith) e)
queue_name-inj tx msg a b e = absurd (first b'M' b'N' _ _ (omega arith) e)
queue_name-inj msg rx a b e = absurd (first b'N' b'M' _ _ (omega arith) e)
queue_name-inj msg tx a b e = absurd (first b'N' b'M' _ _ (omega arith) e)
