-- ===== src/Base/Outcomes.antt =====
-- Results of code that may throw: an error of the component's own, or a value.
pub data Result {ℓ} (E : Type 0) (A : Type ℓ) : Type ℓ where
  ok : A → Result E A
  err : E → Result E A
