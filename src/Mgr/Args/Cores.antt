-- ===== src/Mgr/Args/Cores.antt =====
-- The cores that a mask chooses, for the loop of `parse_nf_cores` of onvm_mgr/src/mgr/get_args.rs.
pub mod Loop
pub mod Printed
pub mod Counted
pub mod Whole
use native.Mathlib.Decide.{ℕ_discrete}
use rust_onvm_v.Base.{
  ℕ, zero, suc, ◌+◌, ◌-◌, ◌/◌, ◌%◌, ◌≤◌, ◌<◌, ◌≡◌, ◌≢◌, ◌∙◌, sym, ap, refl, arith, some, ok, Bool,
  true, false, bind_ok, index_at_ok, deref_ok, get_elem?, get_elem?_lt, length, ltb, leb, ◌==◌,
  ◌&&◌, if◌then◌else◌, Cmd, Run,
}
use rust_onvm_v.Nflib.Structs.Packets.{Ptr}
use rust_onvm_v.Nflib.Structs.Ports.{CoreStatus}
use rust_onvm_v.Mgr.System.{System, update}
use rust_onvm_v.Mgr.Nf.Stop.Count.{Distinct, Distinct-index}
use rust_onvm_v.Mgr.System.{update_self, update-update}
use rust_onvm_v.Mgr.Args.{ArgError, enable_core, coremask_loop}

-- Bit `i` of a mask.
unfoldable pub chosen : ℕ → ℕ → Bool
chosen pm zero = pm % 2 == 1
chosen pm (suc i) = chosen (pm / 2) i

-- A core that the mask turns on.
abbrev pub turned_on : CoreStatus → CoreStatus
turned_on c = record c { enabled = true; nf_count = 0 }

-- Each of the manager's cores has a status of its own.
pub record HasCores {W : Type 0} (s : System W) : Type 0 where
  pub distinct : Distinct s.global.cores
  pub filled :
      (i : ℕ) (p : Ptr)
      → get_elem? s.global.cores i ≡ some p
      → (c : CoreStatus) × (s.core_mem p ≡ some c)

-- The bit that the loop has yet to read for core `i`, in round `count`.
abbrev pub due : ℕ → ℕ → ℕ → ℕ → Bool
due pm count max i = leb count i && ltb i max && chosen pm (i - count)

pub chosen_zero : (i : ℕ) → chosen 0 i ≡ false
unfolding chosen
chosen_zero zero = refl
chosen_zero (suc i) = chosen_zero i

chosen_later :
    (pm count i : ℕ) → count < i → chosen pm (i - count) ≡ chosen (pm / 2) (i - (count + 1))
unfolding chosen
chosen_later pm count i h = ap (chosen pm) (numbers count i h)
  where
    numbers : (count i : ℕ) → count < i → i - count ≡ suc (i - (count + 1))
    numbers count i h = omega arith

pub due_zero : (count max i : ℕ) → due 0 count max i ≡ false
due_zero count max i = ground (arith, chosen_zero (i - count))

due_later : (pm count max i : ℕ) → i ≢ count → due (pm / 2) (count + 1) max i ≡ due pm count max i
due_later pm count max i h = ground (arith, chosen_later pm count i)

pub due_past : (pm count max : ℕ) → due (pm / 2) (count + 1) max count ≡ false
due_past pm count max = ground arith

due_last : (pm count max i : ℕ) → count + 1 ≡ max → i ≢ count → due pm count max i ≡ false
due_last pm count max i h ne = ground arith

pub due_now : (pm count max : ℕ) → count < max → due pm count max count ≡ (pm % 2 == 1)
unfolding chosen
due_now pm count max h = ground arith

pub due_first : (pm max i : ℕ) → due pm 0 max i ≡ (ltb i max && chosen pm i)
due_first pm max i = ground arith

module _ {W : Type 0} where
  abbrev pub with_core : System W → Ptr → CoreStatus → System W
  with_core s p c = record s { core_mem = update s.core_mem p (turned_on c) }

  pub enable_core_lem :
      (i : ℕ) (p : Ptr) (c : CoreStatus) (s : System W)
      → get_elem? s.global.cores i ≡ some p
      → s.core_mem p ≡ some c
      → enable_core i s ≡ ok tt (with_core s p c)
  unfolding enable_core
  enable_core_lem i p c s slot here =
      bind_ok _ (index_at_ok s.global.cores i s slot)
      ∙ bind_ok _ (deref_ok s here)
      ∙ bind_ok _ (index_at_ok s.global.cores i _ slot)
      ∙ bind_ok _ (deref_ok _ (update_self s.core_mem p (record c { enabled = true })))
      ∙ ap (λ m. ok tt (record s { core_mem = m }))
          (update-update s.core_mem p (record c { enabled = true }) (turned_on c))

  pub HasCores-with_core :
      (s : System W) (p : Ptr) (c : CoreStatus) → HasCores s → HasCores (with_core s p c)
  HasCores-with_core s p c h = record {
    distinct = h.distinct;
    filled = λ i q slot. elim (ℕ_discrete p q) [
      | yes e ↦ (turned_on c, ground arith)
      | no ne ↦ let (k, here) = h.filled i q slot in (k, ground arith)
    ];
  }

  -- The loop sets, from round `count` on, the cores that the rest `pm` of the mask chooses.
  abbrev pub Masked : ℕ → ℕ → ℕ → System W → System W → Type 0
  Masked pm count max s t =
      (t ≡ record s { core_mem = t.core_mem })
      × ((i : ℕ) (p : Ptr) (c : CoreStatus)
          → get_elem? s.global.cores i ≡ some p
          → s.core_mem p ≡ some c
          → t.core_mem p ≡ some (if due pm count max i then turned_on c else c))

  pub Masked-quiet :
      (pm count max : ℕ) (s : System W)
      → ((i : ℕ) → due pm count max i ≡ false)
      → Masked pm count max s s
  Masked-quiet pm count max s none_due = (refl, λ i p c slot here. ground (arith, none_due i))

  pub Masked-unset :
      (pm count max : ℕ) (s t : System W)
      → due pm count max count ≡ false
      → Masked (pm / 2) (count + 1) max s t
      → Masked pm count max s t
  Masked-unset pm count max s t unset m = (
    m.0,
    λ i p c slot here. m.1 i p c slot here ∙ ap (λ b. some (if b then turned_on c else c)) (same i),
  )
    where
      same : (i : ℕ) → due (pm / 2) (count + 1) max i ≡ due pm count max i
      same i = elim (ℕ_discrete i count) [
        | yes e ↦
            ap (due (pm / 2) (count + 1) max) e
            ∙ due_past pm count max
            ∙ sym unset
            ∙ ap (due pm count max) (sym e)
        | no ne ↦ due_later pm count max i ne
      ]

  pub Masked-set :
      (pm count max : ℕ) (s t : System W) (p0 : Ptr) (c0 : CoreStatus)
      → HasCores s
      → get_elem? s.global.cores count ≡ some p0
      → s.core_mem p0 ≡ some c0
      → due pm count max count ≡ true
      → Masked (pm / 2) (count + 1) max (with_core s p0 c0) t
      → Masked pm count max s t
  Masked-set pm count max s t p0 c0 has slot0 here0 set m = (
    m.0,
    λ i p c slot here. elim (ℕ_discrete i count) [
      | yes e ↦ now i p c e (sym slot0 ∙ ap (get_elem? s.global.cores) (sym e) ∙ slot) here
      | no ne ↦
          m.1 i p c slot (elsewhere i p c ne slot here)
          ∙ ap (λ b. some (if b then turned_on c else c)) (due_later pm count max i ne)
    ],
  )
    where
      elsewhere :
          (i : ℕ) (p : Ptr) (c : CoreStatus)
          → i ≢ count
          → get_elem? s.global.cores i ≡ some p
          → s.core_mem p ≡ some c
          → (with_core s p0 c0).core_mem p ≡ some c
      elsewhere i p c ne slot here = elim (ℕ_discrete p0 p) [
        | yes e ↦ absurd (
            ne (
              Distinct-index s.global.cores i count p0 has.distinct (slot ∙ ap some (sym e)) slot0))
        | no other ↦ ground arith
      ]

      now :
          (i : ℕ) (p : Ptr) (c : CoreStatus)
          → i ≡ count
          → some p0 ≡ some p
          → s.core_mem p ≡ some c
          → t.core_mem p ≡ some (if due pm count max i then turned_on c else c)
      now i p c e same here =
          ap t.core_mem (sym (same_ptr))
          ∙ m.1 count p0 (turned_on c0) slot0 (update_self s.core_mem p0 (turned_on c0))
          ∙ ap some (ap (λ b. if b then turned_on c0 else turned_on c0) (due_past pm count max))
          ∙ ap some (ap (λ b. if b then turned_on c0 else c) (sym set_here))
          ∙ ap (λ k. some (if due pm count max i then turned_on k else c)) same_core
        where
          same_ptr : p0 ≡ p
          same_ptr = cc

          same_core : c0 ≡ c
          same_core = cc

          set_here : due pm count max i ≡ true
          set_here = ap (due pm count max) e ∙ set
