-- ===== src/Transport/Grpc/Services.antt =====
-- grpc_transport.go: the methods of the rate limit and admin services, behind the interceptor.
use distributed_rate_limiter.Base.{ℕ, false, Option, none, some, List, map}
use distributed_rate_limiter.Base.Int.{ℤ, pos}
use distributed_rate_limiter.Base.Str.{Str}
use distributed_rate_limiter.Core.Limiter.{Instants}
use distributed_rate_limiter.Core.Models.{
  CheckLimitRequest, CheckLimitResponse, CreateRuleRequest, Rule, Result, ok, err, Error, ErrorCode,
  code_of, invalid_input, invalid_cost,
}
use distributed_rate_limiter.Core.RedisClient.{RedisClient}
use distributed_rate_limiter.Core.Handler.{RateLimitHandler, Circumstances, check_limit}
use distributed_rate_limiter.Core.Handler.Batched.{check_limit_batch}
use distributed_rate_limiter.Store.Admin.{
  AdminHandler, InvalidationEvent, create_rule, update_rule, delete_rule, get_rule, list_rules,
}
use distributed_rate_limiter.Transport.Grpc.{
  GrpcCheckRequest, GrpcCheckResponse, GrpcCreateRuleRequest, GrpcUpdateRuleRequest, GrpcRule,
  GrpcCode, grpc_invalid_argument, grpc_internal, to_check_limit_request, to_create_rule_request,
  to_update_rule_request, to_grpc_check_limit_response, to_grpc_rule, grpc_error, grpc_error_code,
}

-- What a method returns: a message, or a status error by its code.
pub data Reply {ℓ} (A : Type ℓ) : Type ℓ where
  message : A → Reply A
  status : GrpcCode → Reply A

-- The response that stands for an error of CheckLimit.
abbrev pub refused_response : Option ErrorCode → GrpcCheckResponse
refused_response code = record {
  allowed = false;
  remaining = pos 0;
  limit = pos 0;
  reset_after_ms = pos 0;
  retry_after_ms = pos 0;
  error_code = grpc_error_code code;
}

abbrev check_failed : Option ErrorCode → Reply GrpcCheckResponse
check_failed (some invalid_input) = status grpc_invalid_argument
check_failed (some invalid_cost) = status grpc_invalid_argument
check_failed code = message (refused_response code)

abbrev pub check_reply : Result CheckLimitResponse → Reply GrpcCheckResponse
check_reply (err e) = check_failed (code_of e)
check_reply (ok resp) = message (to_grpc_check_limit_response resp)

abbrev batch_failed : Option ErrorCode → Reply (List GrpcCheckResponse)
batch_failed (some invalid_input) = status grpc_invalid_argument
batch_failed (some invalid_cost) = status grpc_invalid_argument
batch_failed code = status grpc_internal

abbrev batch_reply : Result (List CheckLimitResponse) → Reply (List GrpcCheckResponse)
batch_reply (err e) = batch_failed (code_of e)
batch_reply (ok resps) = message (map to_grpc_check_limit_response resps)

abbrev item : Option GrpcCheckRequest → Option CheckLimitRequest
item none = none
item (some req) = some (to_check_limit_request req)

module _ (R : RedisClient) where
  -- CheckLimit of the service
  unfoldable pub grpc_check_limit :
      Circumstances R
      → Option GrpcCheckRequest
      → RateLimitHandler R
      → RateLimitHandler R × Reply GrpcCheckResponse
  unfolding to_check_limit_request to_grpc_check_limit_response grpc_error_code
  grpc_check_limit c none s = (s, status grpc_invalid_argument)
  grpc_check_limit c (some req) s =
      let (s', answer) = check_limit R c (some (to_check_limit_request req)) s in
      (s', check_reply answer)

  -- CheckLimitBatch of the service
  unfoldable pub grpc_check_limit_batch :
      (ℕ → Instants)
      → ℤ
      → Option (List (Option GrpcCheckRequest))
      → RateLimitHandler R
      → RateLimitHandler R × Reply (List GrpcCheckResponse)
  unfolding to_check_limit_request to_grpc_check_limit_response
  grpc_check_limit_batch at took none s = (s, status grpc_invalid_argument)
  grpc_check_limit_batch at took (some reqs) s =
      let (s', answer) = check_limit_batch R at took (map item reqs) s in (s', batch_reply answer)

module _ (Data : Type 0) (hash : CreateRuleRequest → Str)
    (marshal : InvalidationEvent → Result Data) (unix_milli : ℕ → ℤ) where
  abbrev rule_reply : Result Rule → Reply GrpcRule
  rule_reply (err e) = status (grpc_error (code_of e))
  rule_reply (ok r) = message (to_grpc_rule unix_milli r)

  -- CreateRule of the service
  unfoldable pub grpc_create_rule :
      AdminHandler Data → Option GrpcCreateRuleRequest → ℕ → ℕ → AdminHandler Data × Reply GrpcRule
  unfolding to_create_rule_request to_grpc_rule grpc_error
  grpc_create_rule h none now later = (h, status grpc_invalid_argument)
  grpc_create_rule h (some req) now later =
      let (h', answer) =
        create_rule Data hash marshal h (some (to_create_rule_request req)) now later in
      (h', rule_reply answer)

  -- UpdateRule of the service
  unfoldable pub grpc_update_rule :
      AdminHandler Data → Option GrpcUpdateRuleRequest → ℕ → ℕ → AdminHandler Data × Reply GrpcRule
  unfolding to_update_rule_request to_grpc_rule grpc_error
  grpc_update_rule h none now later = (h, status grpc_invalid_argument)
  grpc_update_rule h (some req) now later =
      let (h', answer) =
        update_rule Data hash marshal h (some (to_update_rule_request req)) now later in
      (h', rule_reply answer)

  abbrev deletion_reply : Option Error → Reply (Unit {0})
  deletion_reply none = message tt
  deletion_reply (some e) = status (grpc_error (code_of e))

  -- DeleteRule of the service, with the names and the version of its message
  unfoldable pub grpc_delete_rule :
      AdminHandler Data → Option (Str × Str × ℤ) → ℕ → AdminHandler Data × Reply (Unit {0})
  unfolding grpc_error
  grpc_delete_rule h none now = (h, status grpc_invalid_argument)
  grpc_delete_rule h (some (tenant_id, resource, version)) now =
      let (h', failed) = delete_rule Data hash marshal h tenant_id resource version now in
      (h', deletion_reply failed)

  -- GetRule of the service, with the names of its message
  unfoldable pub grpc_get_rule : AdminHandler Data → Option (Str × Str) → Reply GrpcRule
  unfolding to_grpc_rule grpc_error
  grpc_get_rule h none = status grpc_invalid_argument
  grpc_get_rule h (some (tenant_id, resource)) =
      rule_reply (get_rule Data hash marshal h tenant_id resource)

  abbrev rules_reply : Result (List Rule) → Reply (List GrpcRule)
  rules_reply (err e) = status (grpc_error (code_of e))
  rules_reply (ok rules) = message (map (to_grpc_rule unix_milli) rules)

  -- ListRules of the service, with the tenant of its message
  unfoldable pub grpc_list_rules : AdminHandler Data → Option Str → Reply (List GrpcRule)
  unfolding to_grpc_rule grpc_error
  grpc_list_rules h none = status grpc_invalid_argument
  grpc_list_rules h (some tenant_id) = rules_reply (list_rules Data hash marshal h tenant_id)
