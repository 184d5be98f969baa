-- ===== src/Transport/Agreement.antt =====
-- Both transports give one request the same decision.
use distributed_rate_limiter.Base.{◌≡◌, refl, ap, sym, ◌∙◌, arith, inl, inr, ◌||◌, some, Bool-cases}
use distributed_rate_limiter.Base.Int.{ℤ, pos, leb_ℤ}
use distributed_rate_limiter.Base.Str.{is_empty}
use mathlib.Core.Path.{subst}
use distributed_rate_limiter.Core.Models.{CheckLimitResponse, Result, ok, err}
use distributed_rate_limiter.Core.RedisClient.{RedisClient}
use distributed_rate_limiter.Core.Handler.{RateLimitHandler, Circumstances, check_limit}
use distributed_rate_limiter.Transport.Http.{
  HttpCheckRequest, HttpCheckResponse, HttpRequest, HttpTransport, Decoder, method_post, check_body,
  reply, decode_json, check_answer, check_decoded, handle_check, from_check_limit_response,
}
use distributed_rate_limiter.Transport.Http
use distributed_rate_limiter.Transport.Grpc.{
  GrpcCheckRequest, GrpcCheckResponse, in_milliseconds, to_grpc_check_limit_response,
}
use distributed_rate_limiter.Transport.Grpc
use distributed_rate_limiter.Transport.Grpc.Services.{message, check_reply, grpc_check_limit}

-- The same fields in the message of the other transport.
abbrev pub same_request : HttpCheckRequest → GrpcCheckRequest
same_request req = record {
  trace_id = req.trace_id;
  tenant_id = req.tenant_id;
  user_id = req.user_id;
  resource = req.resource;
  cost = req.cost;
}

abbrev pub SameAnswer : HttpCheckResponse → GrpcCheckResponse → Type 0
SameAnswer b g =
    (g.allowed ≡ b.allowed)
    × (g.remaining ≡ b.remaining)
    × (g.limit ≡ b.limit)
    × (g.error_code ≡ b.error_code)
    × (g.reset_after_ms ≡ in_milliseconds b.reset_after)
    × (g.retry_after_ms ≡ in_milliseconds b.retry_after)

conversions-agree :
    (resp : CheckLimitResponse)
    → SameAnswer (from_check_limit_response resp) (to_grpc_check_limit_response resp)
unfolding from_check_limit_response to_grpc_check_limit_response
conversions-agree resp = (refl, refl, refl, refl, refl, refl)

module _ (R : RedisClient) (t : HttpTransport) (decoder : Decoder) where
  abbrev Agrees : RateLimitHandler R × Result CheckLimitResponse → ℤ → HttpCheckResponse → Type 0
  Agrees x took b =
      (resp : CheckLimitResponse) × (x.1 ≡ ok resp)
      × (from_check_limit_response resp ≡ b)
      × ((check_answer R t decoder took x).0.world ≡ x.0.world)

  answered :
      (took : ℤ) (x : RateLimitHandler R × Result CheckLimitResponse) (b : HttpCheckResponse)
      → (check_answer R t decoder took x).1 ≡ reply 200 (check_body b)
      → Agrees x took b
  answered took (s, err e) b h = ground (arith, h)
  answered took (s, ok resp) b h = (resp, refl, ground (arith, h), refl)

  decoded :
      (c : Circumstances R) (took : ℤ) (req : HttpCheckRequest) (s : RateLimitHandler R)
      (b : HttpCheckResponse)
      → (check_decoded R t decoder c took (some req) s).1 ≡ reply 200 (check_body b)
      → (Agrees (check_limit R c (some (Http.to_check_limit_request req)) s) took b)
        × ((check_decoded R t decoder c took (some req) s).0.world
            ≡ (check_limit R c (some (Http.to_check_limit_request req)) s).0.world)
  unfolding check_decoded
  decoded c took req s b h =
      elim (Bool-cases (
        is_empty req.tenant_id
        || is_empty req.user_id
        || is_empty req.resource
        || leb_ℤ req.cost (pos 0))) [
          | inl bad ↦ ground (arith, bad, h)
          | inr fine ↦
              let whole = check_limit R c (some (Http.to_check_limit_request req)) s in
              let entered : check_decoded R t decoder c took (some req) s
                  ≡ check_answer R t decoder took whole =
                ground (arith, fine) in
              let own = answered took whole b (ap (λ x. x.1) (sym entered) ∙ h) in
              (own, ap (λ x. x.0.world) entered ∙ own.3)
        ]

  -- A check that the HTTP transport answers 200 is answered by the gRPC service, for the same fields
  -- in the same state and circumstances, by a message with the same decision, numbers and error code,
  -- its durations in milliseconds; and both leave the redis, the breaker and the local counters in
  -- the same state.
  pub handle_check-grpc_check_limit :
      (c : Circumstances R) (took : ℤ) (r : HttpRequest) (req : HttpCheckRequest)
      (s : RateLimitHandler R) (b : HttpCheckResponse)
      → r.method ≡ method_post
      → decode_json t decoder.check r ≡ some req
      → (handle_check R t decoder c took r s).1 ≡ reply 200 (check_body b)
      → (g : GrpcCheckResponse) × ((grpc_check_limit R c (some (same_request req)) s).1 ≡ message g)
        × SameAnswer b g
        × ((grpc_check_limit R c (some (same_request req)) s).0.world
            ≡ (handle_check R t decoder c took r s).0.world)
  unfolding handle_check grpc_check_limit Http.to_check_limit_request Grpc.to_check_limit_request
  handle_check-grpc_check_limit c took r req s b post body h =
      let entered : handle_check R t decoder c took r s
          ≡ check_decoded R t decoder c took (some req) s =
        rw (post, body, handle_check) refl in
      let (own, world) = decoded c took req s b (ap (λ x. x.1) (sym entered) ∙ h) in
      (
        to_grpc_check_limit_response own.0,
        ap check_reply own.1,
        subst (λ a. SameAnswer a (to_grpc_check_limit_response own.0)) own.2
            (conversions-agree own.0),
        sym (ap (λ x. x.0.world) entered ∙ world),
      )
