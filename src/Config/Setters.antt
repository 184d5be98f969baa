-- ===== src/Config/Setters.antt =====
-- Each setter of the environment, as an update of its field.
use distributed_rate_limiter.Base.{◌≡◌, refl, Bool, Option, none, some}
use distributed_rate_limiter.Base.Int.{ℤ}
use distributed_rate_limiter.Base.Str.{Str}
use distributed_rate_limiter.Config.{Config, or_keep, or_keep_ms}
use distributed_rate_limiter.Config.Env.{
  set_if, set_region, set_http, set_http_addr, set_grpc, set_grpc_addr, set_auth, set_token,
  set_sample_rate, set_coalesce, set_coalesce_ttl, set_failures, set_open,
}

module _ {F : Type 0} where
  pub set_region_field :
      (o : Option Str) (c : Config F)
      → set_if set_region o c ≡ record c { region = or_keep o c.region }
  set_region_field none c = refl
  set_region_field (some x) c = refl

  pub set_http_field :
      (o : Option Bool) (c : Config F)
      → set_if set_http o c ≡ record c { enable_http = or_keep o c.enable_http }
  set_http_field none c = refl
  set_http_field (some x) c = refl

  pub set_http_addr_field :
      (o : Option Str) (c : Config F)
      → set_if set_http_addr o c ≡ record c { http_listen_addr = or_keep o c.http_listen_addr }
  set_http_addr_field none c = refl
  set_http_addr_field (some x) c = refl

  pub set_grpc_field :
      (o : Option Bool) (c : Config F)
      → set_if set_grpc o c ≡ record c { enable_grpc = or_keep o c.enable_grpc }
  set_grpc_field none c = refl
  set_grpc_field (some x) c = refl

  pub set_grpc_addr_field :
      (o : Option Str) (c : Config F)
      → set_if set_grpc_addr o c ≡ record c { grpc_listen_addr = or_keep o c.grpc_listen_addr }
  set_grpc_addr_field none c = refl
  set_grpc_addr_field (some x) c = refl

  pub set_auth_field :
      (o : Option Bool) (c : Config F)
      → set_if set_auth o c ≡ record c { enable_auth = or_keep o c.enable_auth }
  set_auth_field none c = refl
  set_auth_field (some x) c = refl

  pub set_token_field :
      (o : Option Str) (c : Config F)
      → set_if set_token o c ≡ record c { admin_token = or_keep o c.admin_token }
  set_token_field none c = refl
  set_token_field (some x) c = refl

  pub set_sample_rate_field :
      (o : Option ℤ) (c : Config F)
      → set_if set_sample_rate o c ≡ record c { trace_sample_rate = or_keep o c.trace_sample_rate }
  set_sample_rate_field none c = refl
  set_sample_rate_field (some x) c = refl

  pub set_coalesce_field :
      (o : Option Bool) (c : Config F)
      → set_if set_coalesce o c ≡ record c { coalesce_enabled = or_keep o c.coalesce_enabled }
  set_coalesce_field none c = refl
  set_coalesce_field (some x) c = refl

  pub set_coalesce_ttl_field :
      (o : Option ℤ) (c : Config F)
      → set_if set_coalesce_ttl o c ≡ record c { coalesce_ttl = or_keep_ms o c.coalesce_ttl }
  set_coalesce_ttl_field none c = refl
  set_coalesce_ttl_field (some x) c = refl

  pub set_failures_field :
      (o : Option ℤ) (c : Config F)
      → set_if set_failures o c ≡ record c {
        breaker_options = record c.breaker_options {
          failure_threshold = or_keep o c.breaker_options.failure_threshold;
        };
      }
  set_failures_field none c = refl
  set_failures_field (some x) c = refl

  pub set_open_field :
      (o : Option ℤ) (c : Config F)
      → set_if set_open o c ≡ record c {
        breaker_options = record c.breaker_options {
          open_duration = or_keep_ms o c.breaker_options.open_duration;
        };
      }
  set_open_field none c = refl
  set_open_field (some x) c = refl
