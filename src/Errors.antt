-- ===== src/Errors.antt =====
-- The domain errors of backend/errors.py, and the outcome of an operation that may raise one.
pub data Failure : Type 0 where
  validation conflict forbidden not_found : Failure

pub data Outcome {ℓ} (A : Type ℓ) : Type ℓ where
  ok : A → Outcome A
  error : Failure → Outcome A
