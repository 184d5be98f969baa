-- ===== src/Config/Settings.antt =====
-- What LoadConfig makes of each setting: its sources in their order.
use distributed_rate_limiter.Base.{◌≡◌, true, false, [], ◌∷◌}
use distributed_rate_limiter.Base.Int.{pos}
use distributed_rate_limiter.Base.Str.{Str, bytes}
use distributed_rate_limiter.Base.Assoc.{Assoc, lookup}
use distributed_rate_limiter.Core.Circuit.{CircuitOptions}
use distributed_rate_limiter.Core.Clock.{milliseconds}
use distributed_rate_limiter.Config.{
  Config, ConfigOverrides, default_config, apply_config_overrides,
}
use distributed_rate_limiter.Config.Env.{Strconv}
use distributed_rate_limiter.Config.Flags.{
  given, flags_of, region_given, enable_http_given, http_listen_addr_given, enable_grpc_given,
  grpc_listen_addr_given, enable_auth_given, admin_token_given, trace_sample_rate_given,
  coalesce_enabled_given, coalesce_ttl_ms_given, breaker_failure_threshold_given,
  breaker_open_ms_given,
}
use distributed_rate_limiter.Config.Load.{FlagSet, apply_flag_overrides}
use distributed_rate_limiter.Config.Parallel.{reading, environment}
use distributed_rate_limiter.Config.Sources.{
  first_of, in_ms, where_set, part, four_sources, four_sources_ms, file_source,
  file_source_duration, circuit_parts, limiter_parts, fallback_parts, degrade_parts,
}

-- Every setting, by its sources: the flag, if it was given; the variable of the environment; the
-- field of the file; the default. Durations of flags and variables are in milliseconds.
module _ {F : Type 0} (conv : Strconv) (zero_float : F) where
  abbrev breaker : FlagSet → Assoc Str → ConfigOverrides F → CircuitOptions
  breaker fs env o = record {
    failure_threshold =
        first_of
          (given fs (bytes "breaker_failure_threshold") fs.breaker_failure_threshold
            ∷ reading conv.parse_int env (bytes "RATELIMIT_BREAKER_FAILURE_THRESHOLD")
            ∷ part (λ p. p.failure_threshold) o.breaker_options
            ∷ [])
          (pos 10);
    open_duration =
        first_of
          (in_ms (given fs (bytes "breaker_open_ms") fs.breaker_open_ms)
            ∷ in_ms (reading conv.parse_int env (bytes "RATELIMIT_BREAKER_OPEN_MS"))
            ∷ where_set (part (λ p. p.open_duration) o.breaker_options)
            ∷ [])
          (milliseconds 200);
    half_open_max_calls =
        first_of (part (λ p. p.half_open_max_calls) o.breaker_options ∷ []) (pos 5);
  }

  abbrev pub settings : FlagSet → Assoc Str → ConfigOverrides F → Config F
  settings fs env o = record {
    region =
        first_of
          (given fs (bytes "region") fs.region
            ∷ lookup (bytes "RATELIMIT_REGION") env
            ∷ o.region
            ∷ [])
          (bytes "local");
    region_group = first_of (o.region_group ∷ []) ([]);
    enable_global_ownership = first_of (o.enable_global_ownership ∷ []) (false);
    global_ownership_fallback = first_of (o.global_ownership_fallback ∷ []) (false);
    region_instance_weight = first_of (o.region_instance_weight ∷ []) (pos 0);
    degrade_require_region_quorum = first_of (o.degrade_require_region_quorum ∷ []) (false);
    region_quorum_fraction = first_of (o.region_quorum_fraction ∷ []) (zero_float);
    channel = first_of (o.channel ∷ []) ([]);
    http_listen_addr =
        first_of
          (given fs (bytes "http_addr") fs.http_addr
            ∷ lookup (bytes "RATELIMIT_HTTP_ADDR") env
            ∷ o.http_listen_addr
            ∷ [])
          (bytes ":8080");
    enable_http =
        first_of
          (given fs (bytes "enable_http") fs.enable_http
            ∷ reading conv.parse_bool env (bytes "RATELIMIT_ENABLE_HTTP")
            ∷ o.enable_http
            ∷ [])
          (true);
    enable_grpc =
        first_of
          (given fs (bytes "enable_grpc") fs.enable_grpc
            ∷ reading conv.parse_bool env (bytes "RATELIMIT_ENABLE_GRPC")
            ∷ o.enable_grpc
            ∷ [])
          (true);
    grpc_listen_addr =
        first_of
          (given fs (bytes "grpc_addr") fs.grpc_addr
            ∷ lookup (bytes "RATELIMIT_GRPC_ADDR") env
            ∷ o.grpc_listen_addr
            ∷ [])
          (bytes ":9090");
    grpc_keep_alive = first_of (where_set o.grpc_keep_alive ∷ []) (milliseconds 60000);
    trace_sample_rate =
        first_of
          (given fs (bytes "trace_sample_rate") fs.trace_sample_rate
            ∷ reading conv.parse_int env (bytes "RATELIMIT_TRACE_SAMPLE_RATE")
            ∷ o.trace_sample_rate
            ∷ [])
          (pos 100);
    coalesce_enabled =
        first_of
          (given fs (bytes "coalesce_enabled") fs.coalesce_enabled
            ∷ reading conv.parse_bool env (bytes "RATELIMIT_COALESCE_ENABLED")
            ∷ o.coalesce_enabled
            ∷ [])
          (true);
    coalesce_ttl =
        first_of
          (in_ms (given fs (bytes "coalesce_ttl_ms") fs.coalesce_ttl_ms)
            ∷ in_ms (reading conv.parse_int env (bytes "RATELIMIT_COALESCE_TTL_MS"))
            ∷ where_set o.coalesce_ttl
            ∷ [])
          (milliseconds 10);
    coalesce_shards = first_of (o.coalesce_shards ∷ []) (pos 64);
    breaker_options = breaker fs env o;
    cache_sync_interval = first_of (where_set o.cache_sync_interval ∷ []) (milliseconds 200);
    health_interval = first_of (where_set o.health_interval ∷ []) (milliseconds 100);
    limiter_policy = record {
      shards = first_of (part (λ p. p.shards) o.limiter_policy ∷ []) (pos 16);
      max_entries_shard =
          first_of (part (λ p. p.max_entries_shard) o.limiter_policy ∷ []) (pos 1024);
      quiesce_window =
          first_of (where_set (part (λ p. p.quiesce_window) o.limiter_policy) ∷ [])
            (milliseconds 50);
      close_timeout =
          first_of (where_set (part (λ p. p.close_timeout) o.limiter_policy) ∷ [])
            (milliseconds 2000);
    };
    fallback_policy = record {
      local_cap_per_window =
          first_of (part (λ p. p.local_cap_per_window) o.fallback_policy ∷ []) (pos 100);
      deny_when_not_owner =
          first_of (part (λ p. p.deny_when_not_owner) o.fallback_policy ∷ []) (true);
      emergency_allow_small_cap =
          first_of (part (λ p. p.emergency_allow_small_cap) o.fallback_policy ∷ []) (true);
      emergency_cap_per_window =
          first_of (part (λ p. p.emergency_cap_per_window) o.fallback_policy ∷ []) (pos 10);
    };
    degrade_thresh = record {
      redis_unhealthy_for =
          first_of (where_set (part (λ p. p.redis_unhealthy_for) o.degrade_thresh) ∷ [])
            (milliseconds 500);
      membership_unhealthy =
          first_of (where_set (part (λ p. p.membership_unhealthy) o.degrade_thresh) ∷ [])
            (milliseconds 2000);
      error_rate_window =
          first_of (where_set (part (λ p. p.error_rate_window) o.degrade_thresh) ∷ []) (pos 0);
    };
    http_read_timeout = first_of (where_set o.http_read_timeout ∷ []) (milliseconds 5000);
    http_write_timeout = first_of (where_set o.http_write_timeout ∷ []) (milliseconds 10000);
    http_idle_timeout = first_of (where_set o.http_idle_timeout ∷ []) (milliseconds 60000);
    request_timeout = first_of (where_set o.request_timeout ∷ []) (milliseconds 2000);
    drain_timeout = first_of (where_set o.drain_timeout ∷ []) (milliseconds 5000);
    max_body_bytes = first_of (o.max_body_bytes ∷ []) (pos 1048576);
    enable_auth =
        first_of
          (given fs (bytes "enable_auth") fs.enable_auth
            ∷ reading conv.parse_bool env (bytes "RATELIMIT_ENABLE_AUTH")
            ∷ o.enable_auth
            ∷ [])
          (false);
    admin_token =
        first_of
          (given fs (bytes "admin_token") fs.admin_token
            ∷ lookup (bytes "RATELIMIT_ADMIN_TOKEN") env
            ∷ o.admin_token
            ∷ [])
          ([]);
  }

  breaker_settings :
      (fs : FlagSet) (env : Assoc Str) (o : ConfigOverrides F)
      → (apply_flag_overrides
          (environment conv env (apply_config_overrides (default_config zero_float) o))
          (flags_of fs)).breaker_options
        ≡ breaker fs env o
  unfolding environment apply_config_overrides apply_flag_overrides default_config
  breaker_settings fs env o = rw (circuit_parts) (λ i. record {
    failure_threshold =
        four_sources (reading conv.parse_int env (bytes "RATELIMIT_BREAKER_FAILURE_THRESHOLD"))
          (part (λ p. p.failure_threshold) o.breaker_options) (pos 10)
          (breaker_failure_threshold_given fs) i;
    open_duration =
        four_sources_ms (reading conv.parse_int env (bytes "RATELIMIT_BREAKER_OPEN_MS"))
          (part (λ p. p.open_duration) o.breaker_options) (milliseconds 200)
          (breaker_open_ms_given fs) i;
    half_open_max_calls =
        file_source (part (λ p. p.half_open_max_calls) o.breaker_options) (pos 5) i;
  })

  pub layered :
      (fs : FlagSet) (env : Assoc Str) (o : ConfigOverrides F)
      → apply_flag_overrides
          (environment conv env (apply_config_overrides (default_config zero_float) o))
          (flags_of fs)
        ≡ settings fs env o
  unfolding environment apply_config_overrides apply_flag_overrides default_config
  layered fs env o = λ i. record {
    region =
        four_sources (lookup (bytes "RATELIMIT_REGION") env) o.region (bytes "local")
          (region_given fs) i;
    region_group = file_source o.region_group ([]) i;
    enable_global_ownership = file_source o.enable_global_ownership (false) i;
    global_ownership_fallback = file_source o.global_ownership_fallback (false) i;
    region_instance_weight = file_source o.region_instance_weight (pos 0) i;
    degrade_require_region_quorum = file_source o.degrade_require_region_quorum (false) i;
    region_quorum_fraction = file_source o.region_quorum_fraction (zero_float) i;
    channel = file_source o.channel ([]) i;
    http_listen_addr =
        four_sources (lookup (bytes "RATELIMIT_HTTP_ADDR") env) o.http_listen_addr (bytes ":8080")
          (http_listen_addr_given fs) i;
    enable_http =
        four_sources (reading conv.parse_bool env (bytes "RATELIMIT_ENABLE_HTTP")) o.enable_http
          (true) (enable_http_given fs) i;
    enable_grpc =
        four_sources (reading conv.parse_bool env (bytes "RATELIMIT_ENABLE_GRPC")) o.enable_grpc
          (true) (enable_grpc_given fs) i;
    grpc_listen_addr =
        four_sources (lookup (bytes "RATELIMIT_GRPC_ADDR") env) o.grpc_listen_addr (bytes ":9090")
          (grpc_listen_addr_given fs) i;
    grpc_keep_alive = file_source_duration o.grpc_keep_alive (milliseconds 60000) i;
    trace_sample_rate =
        four_sources (reading conv.parse_int env (bytes "RATELIMIT_TRACE_SAMPLE_RATE"))
          o.trace_sample_rate (pos 100) (trace_sample_rate_given fs) i;
    coalesce_enabled =
        four_sources (reading conv.parse_bool env (bytes "RATELIMIT_COALESCE_ENABLED"))
          o.coalesce_enabled (true) (coalesce_enabled_given fs) i;
    coalesce_ttl =
        four_sources_ms (reading conv.parse_int env (bytes "RATELIMIT_COALESCE_TTL_MS"))
          o.coalesce_ttl (milliseconds 10) (coalesce_ttl_ms_given fs) i;
    coalesce_shards = file_source o.coalesce_shards (pos 64) i;
    breaker_options = breaker_settings fs env o i;
    cache_sync_interval = file_source_duration o.cache_sync_interval (milliseconds 200) i;
    health_interval = file_source_duration o.health_interval (milliseconds 100) i;
    limiter_policy =
        limiter_parts o.limiter_policy
          (record {
            shards = pos 16;
            max_entries_shard = pos 1024;
            quiesce_window = milliseconds 50;
            close_timeout = milliseconds 2000;
          })
          i;
    fallback_policy =
        fallback_parts o.fallback_policy
          (record {
            local_cap_per_window = pos 100;
            deny_when_not_owner = true;
            emergency_allow_small_cap = true;
            emergency_cap_per_window = pos 10;
          })
          i;
    degrade_thresh =
        degrade_parts o.degrade_thresh
          (record {
            redis_unhealthy_for = milliseconds 500;
            membership_unhealthy = milliseconds 2000;
            error_rate_window = pos 0;
          })
          i;
    http_read_timeout = file_source_duration o.http_read_timeout (milliseconds 5000) i;
    http_write_timeout = file_source_duration o.http_write_timeout (milliseconds 10000) i;
    http_idle_timeout = file_source_duration o.http_idle_timeout (milliseconds 60000) i;
    request_timeout = file_source_duration o.request_timeout (milliseconds 2000) i;
    drain_timeout = file_source_duration o.drain_timeout (milliseconds 5000) i;
    max_body_bytes = file_source o.max_body_bytes (pos 1048576) i;
    enable_auth =
        four_sources (reading conv.parse_bool env (bytes "RATELIMIT_ENABLE_AUTH")) o.enable_auth
          (false) (enable_auth_given fs) i;
    admin_token =
        four_sources (lookup (bytes "RATELIMIT_ADMIN_TOKEN") env) o.admin_token ([])
          (admin_token_given fs) i;
  }
