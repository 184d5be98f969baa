-- ===== src/Transport/Grpc/Laws.antt =====
-- The conversions of messages, and the interceptor.
use distributed_rate_limiter.Base.{
  ℕ, ◌*◌, ◌^◌, ◌<◌, ◌≡◌, ◌≢◌, refl, ap, ◌∙◌, arith, true, false, ◌++◌, none, some, List, [], ◌∷◌,
}
use distributed_rate_limiter.Base.Int.{ℤ, pos, wrap64_exact, quot64}
use distributed_rate_limiter.Base.Str.{Str, bytes, str_eq_ne, str_eq_refl}
use distributed_rate_limiter.Store.RuleDb.{created, updated}
use distributed_rate_limiter.Config.{duration_ms}
use distributed_rate_limiter.Transport.Grpc.{
  GrpcCreateRuleRequest, GrpcUpdateRuleRequest, in_milliseconds, to_create_rule_request,
  to_update_rule_request, to_grpc_rule, has_prefix, admitted,
}

duration_round_trip : (n : ℕ) → n * 1000000 < 2 ^ 63 → in_milliseconds (duration_ms (pos n)) ≡ pos n
unfolding duration_ms quot64
duration_round_trip n h = rw (wrap64_exact (pos (n * 1000000)) h) (ap pos (omega arith))

-- A window of a number of milliseconds whose nanoseconds fit an int64 comes back, in the message for
-- the rule that the database makes of a create or an update request, as the number that was sent.
pub window_ms-round_trip :
    (unix_milli : ℕ → ℤ) (req : GrpcCreateRuleRequest) (upd : GrpcUpdateRuleRequest) (version : ℤ)
    (now n : ℕ)
    → n * 1000000 < 2 ^ 63
    → req.window_ms ≡ pos n
    → upd.window_ms ≡ pos n
    → ((to_grpc_rule unix_milli (created (to_create_rule_request req) now)).window_ms ≡ pos n)
      × ((to_grpc_rule unix_milli (updated (to_update_rule_request upd) version now)).window_ms
          ≡ pos n)
unfolding to_grpc_rule to_create_rule_request to_update_rule_request
window_ms-round_trip unix_milli req upd version now n fits sent sent' = (
  ap (λ w. in_milliseconds (duration_ms w)) sent ∙ duration_round_trip n fits,
  ap (λ w. in_milliseconds (duration_ms w)) sent' ∙ duration_round_trip n fits,
)

-- With authentication on, a call of a method of the admin service whose first "authorization" value
-- is not the bearer token, or that has none, does not reach the service; with the token as its first
-- value it does.
pub admitted-token :
    (token method first : Str) (others : List Str)
    → has_prefix method (bytes "/ratelimit.v1.AdminService/") ≡ true
    → first ≢ bytes "Bearer " ++ token
    → (admitted true token method (some (first ∷ others)) ≡ false)
      × (admitted true token method (some []) ≡ false)
      × (admitted true token method none ≡ false)
      × (admitted true token method (some ((bytes "Bearer " ++ token) ∷ others)) ≡ true)
unfolding admitted
admitted-token token method first others admin other = (
  rw (admin, admitted) (str_eq_ne first _ other),
  rw (admin, admitted) refl,
  rw (admin, admitted) refl,
  rw (admin, admitted) (str_eq_refl (bytes "Bearer " ++ token)),
)
