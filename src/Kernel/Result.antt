-- ===== src/Kernel/Result.antt =====
-- src/kernel/domain/result.py and domain_error.py. A raised `DomainError` is an `err` too.
use agentic_substrate.Prelude.{String, Bool, true, false}

-- `Ok` and `Err`.
pub data Result {ℓ κ} (A : Type ℓ) (E : Type κ) : Type (ℓ ⊔ κ) where
  ok : A → Result A E
  err : E → Result A E

pub record DomainError : Type 0 where
  pub message : String
  pub code : String

abbrev pub is_ok {ℓ κ} : {A : Type ℓ} {E : Type κ} → Result A E → Bool
is_ok (ok a) = true
is_ok (err e) = false
