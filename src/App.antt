-- ===== src/App.antt =====
-- internal/ratelimit/app/app.go: the checks and the defaults of NewApplication. The objects that it
-- makes of the configuration are not modelled here.
pub mod Laws
mod Examples
use distributed_rate_limiter.Base.{
  Bool, true, false, not, ◌&&◌, ◌||◌, if◌then◌else◌, Option, none, some, List, [], ◌∷◌,
}
use distributed_rate_limiter.Base.Float.{Float64}
use distributed_rate_limiter.Base.Int.{ℤ, pos, leb_ℤ, ltb_ℤ, eqb_ℤ}
use distributed_rate_limiter.Base.Str.{Str, bytes, is_empty}
use distributed_rate_limiter.Core.Circuit.{CircuitOptions}
use distributed_rate_limiter.Core.Clock.{milliseconds}
use distributed_rate_limiter.Core.Fallback.{FallbackPolicy, normalize_fallback_policy}
use distributed_rate_limiter.Core.Mode.{DegradeThresholds}
use distributed_rate_limiter.Core.Models.{Result, ok, err, Error, plain}
use distributed_rate_limiter.Core.Pool.Sharded.{LimiterPolicy}
use distributed_rate_limiter.Config.{Config}

-- x == 0, and the default it then gets.
abbrev pub if_zero : ℤ → ℤ → ℤ
if_zero x d = if eqb_ℤ x (pos 0) then d else x

abbrev pub if_empty : Str → Str → Str
if_empty s d = if is_empty s then d else s

abbrev negative : ℤ → Bool
negative x = ltb_ℤ x (pos 0)

-- The policy is the zero value of its type.
unfoldable pub is_zero_policy : FallbackPolicy → Bool
is_zero_policy p =
    eqb_ℤ p.local_cap_per_window (pos 0)
    && (not p.deny_when_not_owner
        && (not p.emergency_allow_small_cap && eqb_ℤ p.emergency_cap_per_window (pos 0)))

module _ (fl : Float64) where
  abbrev pub zero_float : fl.F
  zero_float = fl.of_int (pos 0)

  abbrev pub half : fl.F
  half = fl.div (fl.of_int (pos 1)) (fl.of_int (pos 2))

  abbrev pub is_zero_float : fl.F → Bool
  is_zero_float x = fl.le x zero_float && fl.le zero_float x

  abbrev bad_fraction : fl.F → Bool
  bad_fraction x = fl.le x zero_float || fl.lt (fl.of_int (pos 1)) x

  -- The checks, in their order; `none` where all are passed.
  unfoldable pub rejected : Config fl.F → Option Error
  rejected cfg =
      if is_empty cfg.region
      then some (plain "region is required")
      else if cfg.degrade_require_region_quorum && bad_fraction cfg.region_quorum_fraction
      then some (plain "region quorum fraction must be between 0 and 1")
      else if cfg.enable_http && is_empty cfg.http_listen_addr
      then some (plain "http listen address is required")
      else if cfg.enable_grpc && is_empty cfg.grpc_listen_addr
      then some (plain "grpc listen address is required")
      else if cfg.enable_auth && is_empty cfg.admin_token
      then some (plain "admin token is required")
      else if negative cfg.http_read_timeout
      then some (plain "http read timeout must be positive")
      else if negative cfg.http_write_timeout
      then some (plain "http write timeout must be positive")
      else if negative cfg.http_idle_timeout
      then some (plain "http idle timeout must be positive")
      else if negative cfg.grpc_keep_alive
      then some (plain "grpc keep alive must be positive")
      else if negative cfg.request_timeout
      then some (plain "request timeout must be positive")
      else if negative cfg.drain_timeout
      then some (plain "drain timeout must be positive")
      else none

  -- The defaults of what is not set.
  unfoldable pub filled : Config fl.F → Config fl.F
  unfolding is_zero_policy
  filled cfg = record cfg {
    http_read_timeout = if_zero cfg.http_read_timeout (milliseconds 5000);
    http_write_timeout = if_zero cfg.http_write_timeout (milliseconds 10000);
    http_idle_timeout = if_zero cfg.http_idle_timeout (milliseconds 60000);
    grpc_listen_addr = if_empty cfg.grpc_listen_addr (bytes ":9090");
    grpc_keep_alive = if_zero cfg.grpc_keep_alive (milliseconds 60000);
    request_timeout = if_zero cfg.request_timeout (milliseconds 2000);
    drain_timeout = if_zero cfg.drain_timeout (milliseconds 5000);
    max_body_bytes = if leb_ℤ cfg.max_body_bytes (pos 0) then pos 1048576 else cfg.max_body_bytes;
    channel = if_empty cfg.channel (bytes "ratelimit_invalidation");
    trace_sample_rate = if_zero cfg.trace_sample_rate (pos 100);
    global_ownership_fallback =
        if not cfg.global_ownership_fallback then true else cfg.global_ownership_fallback;
    coalesce_enabled = if not cfg.coalesce_enabled then true else cfg.coalesce_enabled;
    coalesce_ttl = if_zero cfg.coalesce_ttl (milliseconds 10);
    coalesce_shards = if_zero cfg.coalesce_shards (pos 64);
    breaker_options = record {
      failure_threshold = if_zero cfg.breaker_options.failure_threshold (pos 10);
      open_duration = if_zero cfg.breaker_options.open_duration (milliseconds 200);
      half_open_max_calls = if_zero cfg.breaker_options.half_open_max_calls (pos 5);
    };
    cache_sync_interval = if_zero cfg.cache_sync_interval (milliseconds 200);
    health_interval = if_zero cfg.health_interval (milliseconds 100);
    limiter_policy = record {
      shards = if_zero cfg.limiter_policy.shards (pos 16);
      max_entries_shard = if_zero cfg.limiter_policy.max_entries_shard (pos 1024);
      quiesce_window = if_zero cfg.limiter_policy.quiesce_window (milliseconds 50);
      close_timeout = if_zero cfg.limiter_policy.close_timeout (milliseconds 2000);
    };
    fallback_policy =
        if is_zero_policy cfg.fallback_policy
        then normalize_fallback_policy cfg.fallback_policy
        else cfg.fallback_policy;
    degrade_thresh = record cfg.degrade_thresh {
      redis_unhealthy_for = if_zero cfg.degrade_thresh.redis_unhealthy_for (milliseconds 500);
      membership_unhealthy = if_zero cfg.degrade_thresh.membership_unhealthy (milliseconds 2000);
    };
    region_group = if_empty cfg.region_group cfg.region;
    region_instance_weight = if_zero cfg.region_instance_weight (pos 1);
    region_quorum_fraction =
        if is_zero_float cfg.region_quorum_fraction then half else cfg.region_quorum_fraction;
  }

  -- The configuration with which NewApplication goes on, or its error.
  unfoldable pub new_application : Config fl.F → Result (Config fl.F)
  unfolding rejected filled
  new_application cfg = elim (rejected cfg) [ some e ↦ err e | none ↦ ok (filled cfg) ]
