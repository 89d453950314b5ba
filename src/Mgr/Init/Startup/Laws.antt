-- ===== src/Mgr/Init/Startup/Laws.antt =====
-- Whether `init` can return, and what it does with its arguments.
use rust_onvm_v.Base.{
  ◌≡◌, refl, arith, List, [], ◌∷◌, ◌++◌, none, some, true, returns, has_no_err, returns-first,
  returns-rest, no_err-bind, ℕ, zero, suc, false, Bool, if◌then◌else◌,
}
use rust_onvm_v.Mgr.System.{System}
use rust_onvm_v.Mgr.Init.Dpdk.{InitDpdk, ZoneName, mz_services_info}
use rust_onvm_v.Nflib.Constants.{max_services}
use rust_onvm_v.Mgr.Init.Pools.{Sizes, void_size}
use rust_onvm_v.Mgr.Init.Zones.{
  pointers, service_nfs, reserve, nf_zone, port_zone, core_zone, service_zone, per_service_zone,
  init_zones,
}
use rust_onvm_v.Mgr.Init.Startup.{Text, Host, same_text, split_once, split_args, start_eal, init}

-- No argument of the list is `--`.
unfoldable pub has_no_dashes : List Text → Bool
has_no_dashes [] = true
has_no_dashes (t ∷ ts) = if same_text t (b'-' ∷ b'-' ∷ []) then false else has_no_dashes ts

abbrev pub dashes : Text
dashes = b'-' ∷ b'-' ∷ []

pub split_once_plain : (xs : List Text) → has_no_dashes xs ≡ true → split_once xs ≡ (xs, none)
unfolding split_once has_no_dashes
split_once_plain [] h = refl
split_once_plain (a ∷ xs) h = ground (arith, split_once_plain xs)

pub split_once-dashes :
    (xs bs : List Text) → has_no_dashes xs ≡ true → split_once (xs ++ dashes ∷ bs) ≡ (xs, some bs)
unfolding split_once has_no_dashes
split_once-dashes [] bs h = refl
split_once-dashes (a ∷ xs) bs h = ground (arith, split_once-dashes xs bs)

module _ {W : Type 0} (d : InitDpdk W) (z : Sizes) where
  per_service_zone-returns :
      (cores : ℕ) (s : System W) → returns (per_service_zone d z cores s) ≡ false
  unfolding per_service_zone reserve returns
  per_service_zone-returns cores s = ground arith

  nf_zone-no_err : (cores : ℕ) (s : System W) → has_no_err (nf_zone d z cores s) ≡ true
  unfolding nf_zone reserve has_no_err
  nf_zone-no_err cores s = ground arith

  port_zone-no_err : (cores : ℕ) (s : System W) → has_no_err (port_zone d z cores s) ≡ true
  unfolding port_zone reserve has_no_err
  port_zone-no_err cores s = ground arith

  core_zone-no_err : (cores : ℕ) (s : System W) → has_no_err (core_zone d z cores s) ≡ true
  unfolding core_zone reserve has_no_err
  core_zone-no_err cores s = ground arith

  service_nfs-no_err : (n i : ℕ) (s : System W) → has_no_err (service_nfs d n i s) ≡ true
  unfolding service_nfs has_no_err
  service_nfs-no_err zero i s = refl
  service_nfs-no_err (suc n) i s =
      no_err-bind _ _ (ground arith) λ u t. service_nfs-no_err n (suc i) t

  zone_found-no_err :
      (name : ZoneName) (size : ℕ) (s : System W) → has_no_err (reserve d name size s) ≡ true
  unfolding reserve has_no_err
  zone_found-no_err name size s = ground arith

  service_zone-no_err : (cores : ℕ) (s : System W) → has_no_err (service_zone d z cores s) ≡ true
  unfolding service_zone
  service_zone-no_err cores s = no_err-bind _ _ (zone_found-no_err mz_services_info _ s) (λ _ t.
      service_nfs-no_err max_services 0
        (record t { global = record (t.global) { services = pointers cores void_size 0 } }))

  pub init_zones-returns : (cores : ℕ) (s : System W) → returns (init_zones d z cores s) ≡ false
  unfolding init_zones
  init_zones-returns cores s = returns-rest _ _ (nf_zone-no_err cores s) λ _ s.
      returns-rest _ _ (port_zone-no_err cores s) λ _ s.
        returns-rest _ _ (core_zone-no_err cores s) λ _ s.
          returns-rest _ _ (service_zone-no_err cores s)
            λ _ s. returns-first _ _ (per_service_zone-returns cores s)

  start_eal-no_err :
      (h : Host W) (args : List Text) (s : System W) → has_no_err (start_eal d z h args s) ≡ true
  unfolding start_eal has_no_err
  start_eal-no_err h args s = ground arith

  -- `init` never returns.
  pub init-returns :
      (h : Host W) (fuel : ℕ) (args : List Text) (s : System W)
      → returns (init d z h fuel args s) ≡ false
  unfolding init
  init-returns h fuel args s =
      returns-rest _ _ (start_eal-no_err h (split_args args).0 _)
        λ _ s. returns-first _ _ (init_zones-returns h.num_cpus s)
