-- ===== src/Transport/Grpc/Examples.antt =====
-- A window of a second, and one that is too long.
use distributed_rate_limiter.Base.{◌≡◌, refl, arith, []}
use distributed_rate_limiter.Base.Int.{ℤ, pos, negsuc, wrap64, of_bits}
use distributed_rate_limiter.Base.Str.{Str, bytes}
use distributed_rate_limiter.Config.{duration_ms}
use distributed_rate_limiter.Store.RuleDb.{created, updated}
use distributed_rate_limiter.Transport.Grpc.{
  GrpcCreateRuleRequest, GrpcUpdateRuleRequest, to_create_rule_request, to_update_rule_request,
  to_grpc_rule,
}
use distributed_rate_limiter.Transport.Grpc.Laws.{window_ms-round_trip}

abbrev create : ℤ → GrpcCreateRuleRequest
create window_ms = record {
  tenant_id = bytes "t";
  resource = bytes "r";
  algorithm = bytes "fixed_window";
  limit = pos 10;
  window_ms = window_ms;
  burst_size = pos 0;
  idempotency_key = [];
}

abbrev update : GrpcUpdateRuleRequest
update = record {
  tenant_id = bytes "t";
  resource = bytes "r";
  algorithm = bytes "fixed_window";
  limit = pos 10;
  window_ms = pos 1000;
  burst_size = pos 0;
  expected_version = pos 1;
}

window_ms-round_trip_example :
    ((to_grpc_rule (λ t. pos 0) (created (to_create_rule_request (create (pos 1000))) 5)).window_ms
      ≡ pos 1000)
    × ((to_grpc_rule (λ t. pos 0) (updated (to_update_rule_request update) (pos 1) 5)).window_ms
        ≡ pos 1000)
window_ms-round_trip_example =
    window_ms-round_trip (λ t. pos 0) (create (pos 1000)) update (pos 1) 5 1000 (ground arith) refl
      refl

-- A longer one becomes a negative window.
overflowing_window :
    (to_create_rule_request (create (pos 9223372036855))).window ≡ negsuc 9223372036854551615
unfolding to_create_rule_request duration_ms wrap64 of_bits
overflowing_window = refl

abbrev create_method : Str
create_method = bytes "/ratelimit.v1.AdminService/CreateRule"
