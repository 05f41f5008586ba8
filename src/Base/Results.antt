-- ===== src/Base/Results.antt =====
-- Rust's `Result`.
use mathlib.Core.Bool.{Bool, true, false}

pub data Result {ℓ κ} (A : Type ℓ) (E : Type κ) : Type (ℓ ⊔ κ) where
  ok : A → Result A E
  err : E → Result A E

abbrev pub is_ok {ℓ κ} : {A : Type ℓ} {E : Type κ} → Result A E → Bool
is_ok (ok a) = true
is_ok (err e) = false
