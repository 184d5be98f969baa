-- ===== src/Transport/Grpc.antt =====
-- grpc_transport.go, grpc_errors.go and the authorization of grpc_interceptors.go: the services over
-- the rate limit handler and the admin handler. A message that may be nil is an `Option`; the
-- generated getters give its fields.
pub mod Services
pub mod Laws
mod Examples
use distributed_rate_limiter.Base.{
  ℕ, ◌+◌, ◌-◌, ◌==◌, Bool, true, false, not, ◌&&◌, ◌||◌, ◌++◌, if◌then◌else◌, Option, none, some,
  List, [], ◌∷◌, map,
}
use distributed_rate_limiter.Base.Int.{ℤ, pos, quot64}
use distributed_rate_limiter.Base.Str.{Str, bytes, str_eq, is_empty}
use distributed_rate_limiter.Core.Mode.{OperatingMode, mode_normal, mode_degraded, mode_emergency}
use distributed_rate_limiter.Core.Models.{
  CheckLimitRequest, CheckLimitResponse, CreateRuleRequest, UpdateRuleRequest, Rule, ErrorCode,
  invalid_input, invalid_cost, rule_not_found, limiter_unavailable, limiter_error, conflict,
  not_found, unauthorized, forbidden,
}
use distributed_rate_limiter.Core.Handler.{code_text}
use distributed_rate_limiter.Config.{duration_ms}

pub record GrpcCheckRequest : Type 0 where
  pub trace_id : Str
  pub tenant_id : Str
  pub user_id : Str
  pub resource : Str
  pub cost : ℤ

pub record GrpcCheckResponse : Type 0 where
  pub allowed : Bool
  pub remaining : ℤ
  pub limit : ℤ
  pub reset_after_ms : ℤ
  pub retry_after_ms : ℤ
  pub error_code : Str

pub record GrpcCreateRuleRequest : Type 0 where
  pub tenant_id : Str
  pub resource : Str
  pub algorithm : Str
  pub limit : ℤ
  pub window_ms : ℤ
  pub burst_size : ℤ
  pub idempotency_key : Str

pub record GrpcUpdateRuleRequest : Type 0 where
  pub tenant_id : Str
  pub resource : Str
  pub algorithm : Str
  pub limit : ℤ
  pub window_ms : ℤ
  pub burst_size : ℤ
  pub expected_version : ℤ

pub record GrpcRule : Type 0 where
  pub tenant_id : Str
  pub resource : Str
  pub algorithm : Str
  pub limit : ℤ
  pub window_ms : ℤ
  pub burst_size : ℤ
  pub version : ℤ
  pub updated_at_unix_ms : ℤ

-- Milliseconds of a time.Duration
abbrev pub in_milliseconds : ℤ → ℤ
in_milliseconds d = quot64 d 1000000

unfoldable pub to_check_limit_request : GrpcCheckRequest → CheckLimitRequest
to_check_limit_request req = record {
  trace_id = req.trace_id;
  tenant_id = req.tenant_id;
  user_id = req.user_id;
  resource = req.resource;
  cost = req.cost;
}

unfoldable pub to_create_rule_request : GrpcCreateRuleRequest → CreateRuleRequest
unfolding duration_ms
to_create_rule_request req = record {
  tenant_id = req.tenant_id;
  resource = req.resource;
  algorithm = req.algorithm;
  limit = req.limit;
  window = duration_ms req.window_ms;
  burst_size = req.burst_size;
  idempotency_key = req.idempotency_key;
}

unfoldable pub to_update_rule_request : GrpcUpdateRuleRequest → UpdateRuleRequest
unfolding duration_ms
to_update_rule_request req = record {
  tenant_id = req.tenant_id;
  resource = req.resource;
  algorithm = req.algorithm;
  limit = req.limit;
  window = duration_ms req.window_ms;
  burst_size = req.burst_size;
  expected_version = req.expected_version;
}

unfoldable pub to_grpc_check_limit_response : CheckLimitResponse → GrpcCheckResponse
unfolding code_text quot64
to_grpc_check_limit_response resp = record {
  allowed = resp.allowed;
  remaining = resp.remaining;
  limit = resp.limit;
  reset_after_ms = in_milliseconds resp.reset_after;
  retry_after_ms = in_milliseconds resp.retry_after;
  error_code = code_text resp.error_code;
}

-- toGRPCRule; UnixMilli of package time is a parameter, which also covers the zero time.
unfoldable pub to_grpc_rule : (ℕ → ℤ) → Rule → GrpcRule
unfolding quot64
to_grpc_rule unix_milli r = record {
  tenant_id = r.tenant_id;
  resource = r.resource;
  algorithm = r.algorithm;
  limit = r.limit;
  window_ms = in_milliseconds r.window;
  burst_size = r.burst_size;
  version = r.version;
  updated_at_unix_ms = unix_milli r.updated_at;
}

-- The codes of package codes that the transport uses.
pub data GrpcCode : Type 0 where
  grpc_invalid_argument grpc_failed_precondition grpc_not_found grpc_unauthenticated
        grpc_permission_denied grpc_internal :
      GrpcCode

-- The code in grpcError.
unfoldable pub grpc_error : Option ErrorCode → GrpcCode
grpc_error (some invalid_input) = grpc_invalid_argument
grpc_error (some invalid_cost) = grpc_invalid_argument
grpc_error (some conflict) = grpc_failed_precondition
grpc_error (some not_found) = grpc_not_found
grpc_error (some unauthorized) = grpc_unauthenticated
grpc_error (some forbidden) = grpc_permission_denied
grpc_error (some rule_not_found) = grpc_internal
grpc_error (some limiter_unavailable) = grpc_internal
grpc_error (some limiter_error) = grpc_internal
grpc_error none = grpc_internal

unfoldable pub error_code_text : ErrorCode → Str
error_code_text invalid_input = bytes "INVALID_INPUT"
error_code_text invalid_cost = bytes "INVALID_COST"
error_code_text rule_not_found = bytes "RULE_NOT_FOUND"
error_code_text limiter_unavailable = bytes "LIMITER_UNAVAILABLE"
error_code_text limiter_error = bytes "LIMITER_ERROR"
error_code_text conflict = bytes "CONFLICT"
error_code_text not_found = bytes "NOT_FOUND"
error_code_text unauthorized = bytes "UNAUTHORIZED"
error_code_text forbidden = bytes "FORBIDDEN"

unfoldable pub grpc_error_code : Option ErrorCode → Str
unfolding error_code_text
grpc_error_code none = bytes "LIMITER_ERROR"
grpc_error_code (some c) = error_code_text c

unfoldable pub mode_status : OperatingMode → Str
mode_status mode_degraded = bytes "degraded"
mode_status mode_emergency = bytes "emergency"
mode_status mode_normal = bytes "normal"

unfoldable pub has_prefix : Str → Str → Bool
has_prefix s [] = true
has_prefix [] (p ∷ ps) = false
has_prefix (c ∷ s) (p ∷ ps) = let rest = has_prefix s ps in (c == p) && rest

abbrev expected_token : Str → Option (List Str) → Bool
expected_token admin_token none = false
expected_token admin_token (some []) = false
expected_token admin_token (some (v ∷ vs)) = str_eq v (bytes "Bearer " ++ admin_token)

-- Whether grpcAuthInterceptor lets a call through; the values of "authorization" are `none` where
-- the context has no metadata.
unfoldable pub admitted : Bool → Str → Str → Option (List Str) → Bool
unfolding has_prefix
admitted enable_auth admin_token full_method values =
    if not enable_auth
    then true
    else if not (has_prefix full_method (bytes "/ratelimit.v1.AdminService/"))
    then true
    else expected_token admin_token values
