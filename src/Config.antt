-- ===== src/Config.antt =====
-- internal/ratelimit/config: config.go, and the defaults and overrides of config_load.go. The fields
-- that hold an implementation of an interface are left out, since no override sets them. `F` is the
-- type of float64.
pub mod Env
pub mod Load
pub mod Flags
pub mod Sources
pub mod Settings
pub mod Setters
pub mod Parallel
pub mod Precedence
mod Examples
use distributed_rate_limiter.Base.{
  ℕ, ◌+◌, ◌*◌, Bool, true, false, Option, none, some, List, [], ◌∷◌, if◌then◌else◌,
}
use distributed_rate_limiter.Base.Int.{ℤ, pos, negsuc, wrap64}
use distributed_rate_limiter.Base.Str.{Str, bytes}
use distributed_rate_limiter.Core.Circuit.{CircuitOptions}
use distributed_rate_limiter.Core.Clock.{milliseconds}
use distributed_rate_limiter.Core.Fallback.{FallbackPolicy}
use distributed_rate_limiter.Core.Mode.{DegradeThresholds}
use distributed_rate_limiter.Core.Pool.Sharded.{LimiterPolicy}

pub record Config (F : Type 0) : Type 0 where
  pub region : Str
  pub region_group : Str
  pub enable_global_ownership : Bool
  pub global_ownership_fallback : Bool
  pub region_instance_weight : ℤ
  pub degrade_require_region_quorum : Bool
  pub region_quorum_fraction : F
  pub channel : Str
  pub http_listen_addr : Str
  pub enable_http : Bool
  pub enable_grpc : Bool
  pub grpc_listen_addr : Str
  pub grpc_keep_alive : ℤ
  pub trace_sample_rate : ℤ
  pub coalesce_enabled : Bool
  pub coalesce_ttl : ℤ
  pub coalesce_shards : ℤ
  pub breaker_options : CircuitOptions
  pub cache_sync_interval : ℤ
  pub health_interval : ℤ
  pub limiter_policy : LimiterPolicy
  pub fallback_policy : FallbackPolicy
  pub degrade_thresh : DegradeThresholds
  pub http_read_timeout : ℤ
  pub http_write_timeout : ℤ
  pub http_idle_timeout : ℤ
  pub request_timeout : ℤ
  pub drain_timeout : ℤ
  pub max_body_bytes : ℤ
  pub enable_auth : Bool
  pub admin_token : Str

-- time.Duration(n) * time.Millisecond
unfoldable pub duration_ms : ℤ → ℤ
duration_ms (pos n) = wrap64 (pos (n * 1000000))
duration_ms (negsuc n) = wrap64 (negsuc (n * 1000000 + 999999))

-- defaultConfig, for a zero of float64.
unfoldable pub default_config : {F : Type 0} → F → Config F
default_config zero_float = record {
  region = bytes "local";
  region_group = [];
  enable_global_ownership = false;
  global_ownership_fallback = false;
  region_instance_weight = pos 0;
  degrade_require_region_quorum = false;
  region_quorum_fraction = zero_float;
  channel = [];
  http_listen_addr = bytes ":8080";
  enable_http = true;
  enable_grpc = true;
  grpc_listen_addr = bytes ":9090";
  grpc_keep_alive = milliseconds 60000;
  trace_sample_rate = pos 100;
  coalesce_enabled = true;
  coalesce_ttl = milliseconds 10;
  coalesce_shards = pos 64;
  breaker_options = record {
    failure_threshold = pos 10;
    open_duration = milliseconds 200;
    half_open_max_calls = pos 5;
  };
  cache_sync_interval = milliseconds 200;
  health_interval = milliseconds 100;
  limiter_policy = record {
    shards = pos 16;
    max_entries_shard = pos 1024;
    quiesce_window = milliseconds 50;
    close_timeout = milliseconds 2000;
  };
  fallback_policy = record {
    local_cap_per_window = pos 100;
    deny_when_not_owner = true;
    emergency_allow_small_cap = true;
    emergency_cap_per_window = pos 10;
  };
  degrade_thresh = record {
    redis_unhealthy_for = milliseconds 500;
    membership_unhealthy = milliseconds 2000;
    error_rate_window = pos 0;
  };
  http_read_timeout = milliseconds 5000;
  http_write_timeout = milliseconds 10000;
  http_idle_timeout = milliseconds 60000;
  request_timeout = milliseconds 2000;
  drain_timeout = milliseconds 5000;
  max_body_bytes = pos 1048576;
  enable_auth = false;
  admin_token = [];
}

pub record DurationValue : Type 0 where
  pub value : ℤ
  pub set : Bool

pub record CircuitOptionsInput : Type 0 where
  pub failure_threshold : Option ℤ
  pub open_duration : Option DurationValue
  pub half_open_max_calls : Option ℤ

pub record LimiterPolicyInput : Type 0 where
  pub shards : Option ℤ
  pub max_entries_shard : Option ℤ
  pub quiesce_window : Option DurationValue
  pub close_timeout : Option DurationValue

pub record FallbackPolicyInput : Type 0 where
  pub local_cap_per_window : Option ℤ
  pub deny_when_not_owner : Option Bool
  pub emergency_allow_small_cap : Option Bool
  pub emergency_cap_per_window : Option ℤ

pub record DegradeThreshInput : Type 0 where
  pub redis_unhealthy_for : Option DurationValue
  pub membership_unhealthy : Option DurationValue
  pub error_rate_window : Option DurationValue

pub record ConfigOverrides (F : Type 0) : Type 0 where
  pub region : Option Str
  pub region_group : Option Str
  pub enable_global_ownership : Option Bool
  pub global_ownership_fallback : Option Bool
  pub region_instance_weight : Option ℤ
  pub degrade_require_region_quorum : Option Bool
  pub region_quorum_fraction : Option F
  pub channel : Option Str
  pub http_listen_addr : Option Str
  pub enable_http : Option Bool
  pub enable_grpc : Option Bool
  pub grpc_listen_addr : Option Str
  pub grpc_keep_alive : Option DurationValue
  pub trace_sample_rate : Option ℤ
  pub coalesce_enabled : Option Bool
  pub coalesce_ttl : Option DurationValue
  pub coalesce_shards : Option ℤ
  pub breaker_options : Option CircuitOptionsInput
  pub cache_sync_interval : Option DurationValue
  pub health_interval : Option DurationValue
  pub limiter_policy : Option LimiterPolicyInput
  pub fallback_policy : Option FallbackPolicyInput
  pub degrade_thresh : Option DegradeThreshInput
  pub http_read_timeout : Option DurationValue
  pub http_write_timeout : Option DurationValue
  pub http_idle_timeout : Option DurationValue
  pub request_timeout : Option DurationValue
  pub drain_timeout : Option DurationValue
  pub max_body_bytes : Option ℤ
  pub enable_auth : Option Bool
  pub admin_token : Option Str

-- A pointer that is not nil replaces the value.
abbrev pub or_keep {ℓ} : {A : Type ℓ} → Option A → A → A
or_keep none x = x
or_keep (some y) x = y

-- A duration replaces the value where its Set says so.
abbrev pub or_keep_duration : Option DurationValue → ℤ → ℤ
or_keep_duration none x = x
or_keep_duration (some d) x = if d.set then d.value else x

-- A number of milliseconds replaces the value.
abbrev pub or_keep_ms : Option ℤ → ℤ → ℤ
or_keep_ms none x = x
or_keep_ms (some n) x = duration_ms n

abbrev pub circuit_options : Option CircuitOptionsInput → CircuitOptions → CircuitOptions
circuit_options none c = c
circuit_options (some o) c = record {
  failure_threshold = or_keep o.failure_threshold c.failure_threshold;
  open_duration = or_keep_duration o.open_duration c.open_duration;
  half_open_max_calls = or_keep o.half_open_max_calls c.half_open_max_calls;
}

abbrev pub limiter_policy : Option LimiterPolicyInput → LimiterPolicy → LimiterPolicy
limiter_policy none p = p
limiter_policy (some o) p = record {
  shards = or_keep o.shards p.shards;
  max_entries_shard = or_keep o.max_entries_shard p.max_entries_shard;
  quiesce_window = or_keep_duration o.quiesce_window p.quiesce_window;
  close_timeout = or_keep_duration o.close_timeout p.close_timeout;
}

abbrev pub fallback_policy : Option FallbackPolicyInput → FallbackPolicy → FallbackPolicy
fallback_policy none p = p
fallback_policy (some o) p = record {
  local_cap_per_window = or_keep o.local_cap_per_window p.local_cap_per_window;
  deny_when_not_owner = or_keep o.deny_when_not_owner p.deny_when_not_owner;
  emergency_allow_small_cap = or_keep o.emergency_allow_small_cap p.emergency_allow_small_cap;
  emergency_cap_per_window = or_keep o.emergency_cap_per_window p.emergency_cap_per_window;
}

abbrev pub degrade_thresholds : Option DegradeThreshInput → DegradeThresholds → DegradeThresholds
degrade_thresholds none t = t
degrade_thresholds (some o) t = record {
  redis_unhealthy_for = or_keep_duration o.redis_unhealthy_for t.redis_unhealthy_for;
  membership_unhealthy = or_keep_duration o.membership_unhealthy t.membership_unhealthy;
  error_rate_window = or_keep_duration o.error_rate_window t.error_rate_window;
}

-- applyConfigOverrides
unfoldable pub apply_config_overrides : {F : Type 0} → Config F → ConfigOverrides F → Config F
apply_config_overrides cfg o = record {
  region = or_keep o.region cfg.region;
  region_group = or_keep o.region_group cfg.region_group;
  enable_global_ownership = or_keep o.enable_global_ownership cfg.enable_global_ownership;
  global_ownership_fallback = or_keep o.global_ownership_fallback cfg.global_ownership_fallback;
  region_instance_weight = or_keep o.region_instance_weight cfg.region_instance_weight;
  degrade_require_region_quorum =
      or_keep o.degrade_require_region_quorum cfg.degrade_require_region_quorum;
  region_quorum_fraction = or_keep o.region_quorum_fraction cfg.region_quorum_fraction;
  channel = or_keep o.channel cfg.channel;
  http_listen_addr = or_keep o.http_listen_addr cfg.http_listen_addr;
  enable_http = or_keep o.enable_http cfg.enable_http;
  enable_grpc = or_keep o.enable_grpc cfg.enable_grpc;
  grpc_listen_addr = or_keep o.grpc_listen_addr cfg.grpc_listen_addr;
  grpc_keep_alive = or_keep_duration o.grpc_keep_alive cfg.grpc_keep_alive;
  trace_sample_rate = or_keep o.trace_sample_rate cfg.trace_sample_rate;
  coalesce_enabled = or_keep o.coalesce_enabled cfg.coalesce_enabled;
  coalesce_ttl = or_keep_duration o.coalesce_ttl cfg.coalesce_ttl;
  coalesce_shards = or_keep o.coalesce_shards cfg.coalesce_shards;
  breaker_options = circuit_options o.breaker_options cfg.breaker_options;
  cache_sync_interval = or_keep_duration o.cache_sync_interval cfg.cache_sync_interval;
  health_interval = or_keep_duration o.health_interval cfg.health_interval;
  limiter_policy = limiter_policy o.limiter_policy cfg.limiter_policy;
  fallback_policy = fallback_policy o.fallback_policy cfg.fallback_policy;
  degrade_thresh = degrade_thresholds o.degrade_thresh cfg.degrade_thresh;
  http_read_timeout = or_keep_duration o.http_read_timeout cfg.http_read_timeout;
  http_write_timeout = or_keep_duration o.http_write_timeout cfg.http_write_timeout;
  http_idle_timeout = or_keep_duration o.http_idle_timeout cfg.http_idle_timeout;
  request_timeout = or_keep_duration o.request_timeout cfg.request_timeout;
  drain_timeout = or_keep_duration o.drain_timeout cfg.drain_timeout;
  max_body_bytes = or_keep o.max_body_bytes cfg.max_body_bytes;
  enable_auth = or_keep o.enable_auth cfg.enable_auth;
  admin_token = or_keep o.admin_token cfg.admin_token;
}
