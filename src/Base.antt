-- ===== src/Base.antt =====
-- irida-core/libs/base: `Result<T>` (result.hpp) and `Bytes` (bytes.hpp).
pub mod Action
use irida.Common.{Bool, List, Text, false, inl, inr, refl, true, ℕ, ◌≡◌, ◌⊎◌}

abbrev pub Bytes : Type 0
Bytes = List ℕ

-- The private flag `has_value_` selects the constructor; an error carries its message.
pub data Result {ℓ} (A : Type ℓ) : Type ℓ where
  ok : A → Result A
  err : Text → Result A

module _ {ℓ} {A : Type ℓ} where
  abbrev pub has_value : Result A → Bool
  has_value (ok a) = true
  has_value (err e) = false

  pub Result-cases : (r : Result A) → ((a : A) × (r ≡ ok a)) ⊎ ((e : Text) × (r ≡ err e))
  Result-cases (ok a) = inl (a, refl)
  Result-cases (err e) = inr (e, refl)
