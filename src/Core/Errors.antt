-- ===== src/Core/Errors.antt =====
-- The exceptions that the code raises or lets through, and the result of code that may raise.
use glacis.Base.{Option, Text, ◌≡◌, refl, ◌⊎◌, inl, inr}
use glacis.Core.Models.{Uuid, Status}

-- why `RetryRefusedError` is raised
pub data Reason : Type 0 where
  duplicate_of : Option Uuid → Reason
  already_processed : Reason

-- `integrity_error`, `data_error`, `no_result_found` and `multiple_results_found`: SQLAlchemy's;
-- `overflow_error`: Python's, of a datetime out of range; `encode_error`: orjson's, of a value that is
-- nested too deep; `llm_error`, `validation_error`: the classifier's
pub data Error : Type 0 where
  integrity_error data_error no_result_found multiple_results_found overflow_error encode_error :
      Error
  llm_error validation_error : Text → Error
  persist_error : Error
  retry_not_found : Uuid → Error
  retry_refused : Status → Reason → Error

pub data Result {ℓ} (A : Type ℓ) : Type ℓ where
  ok : A → Result A
  raise : Error → Result A

pub Result-cases {ℓ} :
    {A : Type ℓ} (r : Result A) → ((a : A) × (r ≡ ok a)) ⊎ ((e : Error) × (r ≡ raise e))
Result-cases (ok a) = inl (a, refl)
Result-cases (raise e) = inr (e, refl)
