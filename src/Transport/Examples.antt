-- ===== src/Transport/Examples.antt =====
-- A request for which there is no rule, over both transports.
use distributed_rate_limiter.Base.{◌≡◌, refl, false, none, some, []}
use distributed_rate_limiter.Base.Int.{pos}
use distributed_rate_limiter.Base.Str.{bytes, str_eq}
use distributed_rate_limiter.Base.Assoc.{lookup}
use distributed_rate_limiter.Core.Drain.{begin, new_in_flight}
use distributed_rate_limiter.Core.RuleCache
use distributed_rate_limiter.Core.Handler.{invalid, check_limit, serve, decide, code_text}
use distributed_rate_limiter.Core.Handler.Sample.{redis, handler, alone}
use distributed_rate_limiter.Transport.Http.{
  HttpRequest, HttpCheckRequest, HttpCheckResponse, HttpTransport, Decoder, method_post,
  decode_json, handle_check, check_decoded, from_check_limit_response,
}
use distributed_rate_limiter.Transport.Http
use distributed_rate_limiter.Transport.Grpc.{GrpcCheckResponse}
use distributed_rate_limiter.Transport.Grpc.Services.{message, grpc_check_limit}
use distributed_rate_limiter.Transport.Agreement.{
  same_request, SameAnswer, handle_check-grpc_check_limit,
}

abbrev transport : HttpTransport
transport = record {
  enable_auth = false;
  admin_token = [];
  max_body_bytes = pos 0;
  region = bytes "eu";
}

abbrev request : HttpCheckRequest
request = record {
  trace_id = [];
  tenant_id = bytes "x";
  user_id = bytes "u";
  resource = bytes "r";
  cost = pos 1;
}

abbrev decoder : Decoder
decoder = record {
  check = λ max s. some request;
  batch = λ max s. none;
  create = λ max s. none;
  update = λ max s. none;
  parse_int = λ s. none;
}

abbrev posted : HttpRequest
posted = record {
  method = method_post;
  authorization = [];
  query = λ name. [];
  body = some (bytes "{}");
}

abbrev refusal : HttpCheckResponse
refusal = record {
  allowed = false;
  remaining = pos 0;
  limit = pos 0;
  reset_after = pos 0;
  retry_after = pos 0;
  error_code = bytes "RULE_NOT_FOUND";
}

handle_check-grpc_check_limit_example :
    (g : GrpcCheckResponse) × ((grpc_check_limit redis alone
        (some (same_request request))
        handler).1
      ≡ message g)
    × SameAnswer refusal g
    × ((grpc_check_limit redis alone (some (same_request request)) handler).0.world
        ≡ (handle_check redis transport decoder alone (pos 9) posted handler).0.world)
unfolding handle_check check_decoded decode_json check_limit serve decide invalid RuleCache.get
    lookup str_eq begin new_in_flight from_check_limit_response Http.to_check_limit_request
    code_text
handle_check-grpc_check_limit_example =
    handle_check-grpc_check_limit redis transport decoder alone (pos 9) posted request handler
      refusal refl refl refl
