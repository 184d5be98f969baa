-- ===== src/Core/Models.antt =====
-- models.go and errors.go: requests, rules, decisions and errors, with the parameters that a
-- limiter keeps of a rule (limiter.go). A pointer that may be nil is an `Option`, an `int64` an
-- integer, a `time.Duration` an integer of nanoseconds.
use Prim.Native.String.{String}
use distributed_rate_limiter.Base.{ℕ, Bool, Option, none, some, ◌≡◌, refl, ◌⊎◌, inl, inr}
use distributed_rate_limiter.Base.Int.{ℤ}
use distributed_rate_limiter.Base.Str.{Str}

pub data ErrorCode : Type 0 where
  invalid_input invalid_cost rule_not_found limiter_unavailable limiter_error conflict not_found
        unauthorized forbidden :
      ErrorCode

-- An error value: an AppError by its code, the marker of a fallback decision, an expired or
-- cancelled context, or an error that is only a text.
pub data Error : Type 0 where
  app : ErrorCode → Error
  used_fallback : Error
  context_done : Error
  plain : String → Error

-- `none` where the source returns the empty code.
unfoldable pub code_of : Error → Option ErrorCode
code_of (app c) = some c
code_of used_fallback = none
code_of context_done = none
code_of (plain s) = none

-- A value or an error, for the functions that return one of the two.
pub data Result {ℓ} (A : Type ℓ) : Type ℓ where
  ok : A → Result A
  err : Error → Result A

pub Result-cases {ℓ} :
    {A : Type ℓ} (r : Result A) → ((e : Error) × (r ≡ err e)) ⊎ ((a : A) × (r ≡ ok a))
Result-cases (err e) = inl (e, refl)
Result-cases (ok a) = inr (a, refl)

pub record CheckLimitRequest : Type 0 where
  pub trace_id : Str
  pub tenant_id : Str
  pub user_id : Str
  pub resource : Str
  pub cost : ℤ

pub record Rule : Type 0 where
  pub tenant_id : Str
  pub resource : Str
  pub algorithm : Str
  pub limit : ℤ
  pub window : ℤ
  pub burst_size : ℤ
  pub version : ℤ
  pub updated_at : ℕ

pub record CreateRuleRequest : Type 0 where
  pub tenant_id : Str
  pub resource : Str
  pub algorithm : Str
  pub limit : ℤ
  pub window : ℤ
  pub burst_size : ℤ
  pub idempotency_key : Str

pub record UpdateRuleRequest : Type 0 where
  pub tenant_id : Str
  pub resource : Str
  pub algorithm : Str
  pub limit : ℤ
  pub window : ℤ
  pub burst_size : ℤ
  pub expected_version : ℤ

pub record Decision : Type 0 where
  pub allowed : Bool
  pub remaining : ℤ
  pub limit : ℤ
  pub reset_after : ℤ
  pub retry_after : ℤ

-- The ErrorCode field is a string in the source; these are the texts that the handlers store.
pub data ResponseCode : Type 0 where
  no_error code_invalid_request code_invalid_cost code_rule_not_found code_limiter_unavailable
        code_limiter_error :
      ResponseCode

pub record CheckLimitResponse : Type 0 where
  pub allowed : Bool
  pub remaining : ℤ
  pub limit : ℤ
  pub reset_after : ℤ
  pub retry_after : ℤ
  pub error_code : ResponseCode

pub record RuleParams : Type 0 where
  pub limit : ℤ
  pub window : ℤ
  pub burst : ℤ
  pub version : ℤ
