-- ===== src/Tests/Flags.antt =====
-- Ring names at concrete inputs.
use rust_onvm_v.Base.{ℕ, ◌≡◌, refl}
use rust_onvm_v.Nflib.Macros.Names.{rx, queue_name-inj}

queue_name-inj_example : (rx ≡ rx) × (◌≡◌ {A = ℕ} 12 12)
queue_name-inj_example = queue_name-inj rx rx 12 12 refl
