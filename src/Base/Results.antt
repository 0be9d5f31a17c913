-- ===== src/Base/Results.antt =====
-- A value or an error, `std::variant<A, E>`, and chains of steps that may fail.

pub data Variant {ℓ} (E A : Type ℓ) : Type ℓ where
  value : A → Variant E A
  error : E → Variant E A
