-- ===== src/Config/Examples.antt =====
-- A region from a flag, a token from the environment, a channel from the file.
use distributed_rate_limiter.Base.{
  ◌≡◌, refl, true, false, none, some, List, [], ◌∷◌, inl, inr, ◌==◌,
}
use distributed_rate_limiter.Base.Int.{ℤ, pos, negsuc, wrap64, of_bits}
use distributed_rate_limiter.Base.Str.{Str, bytes, str_eq}
use distributed_rate_limiter.Base.Assoc.{Assoc, lookup, insert}
use distributed_rate_limiter.Core.Limiter.Factory.{trim_space}
use distributed_rate_limiter.Core.Models.{ok}
use distributed_rate_limiter.Config.{ConfigOverrides, duration_ms}
use distributed_rate_limiter.Config.Env.{Strconv, env_map, split_equals, env_map_from}
use distributed_rate_limiter.Config.Load.{FlagSet, Files, load_config}
use distributed_rate_limiter.Config.Parallel.{reading, AllReadable}
use distributed_rate_limiter.Config.Flags.{passed}
use distributed_rate_limiter.Config.Settings.{settings}
use distributed_rate_limiter.Config.Precedence.{load_config-precedence}

-- Numbers of one digit, and "true".
abbrev conv : Strconv
conv = record {
  parse_bool = λ s. elim s [ [] ↦ none | c ∷ t ↦ some (c == 116) ];
  parse_int = λ s. elim s [ [] ↦ none | c ∷ t ↦ some (pos 7) ];
}

abbrev file : ConfigOverrides ℤ
file = record {
  region = some (bytes "us");
  region_group = none;
  enable_global_ownership = none;
  global_ownership_fallback = none;
  region_instance_weight = none;
  degrade_require_region_quorum = none;
  region_quorum_fraction = none;
  channel = some (bytes "rules");
  http_listen_addr = none;
  enable_http = none;
  enable_grpc = none;
  grpc_listen_addr = none;
  grpc_keep_alive = none;
  trace_sample_rate = none;
  coalesce_enabled = none;
  coalesce_ttl = none;
  coalesce_shards = none;
  breaker_options = none;
  cache_sync_interval = none;
  health_interval = none;
  limiter_policy = none;
  fallback_policy = none;
  degrade_thresh = none;
  http_read_timeout = none;
  http_write_timeout = none;
  http_idle_timeout = none;
  request_timeout = none;
  drain_timeout = none;
  max_body_bytes = none;
  enable_auth = none;
  admin_token = some (bytes "filed");
}

abbrev files : Files ℤ
files = record { read_file = λ path. ok (bytes "{}"); unmarshal = λ content. ok file }

abbrev flags : FlagSet
flags = record {
  config = [];
  region = bytes "eu";
  enable_http = false;
  http_addr = [];
  enable_grpc = false;
  grpc_addr = [];
  enable_auth = false;
  admin_token = [];
  trace_sample_rate = pos 0;
  coalesce_enabled = false;
  coalesce_ttl_ms = pos 0;
  breaker_failure_threshold = pos 0;
  breaker_open_ms = pos 0;
  visited = bytes "region" ∷ [];
}

abbrev environ : List Str
environ =
    bytes "RATELIMIT_ADMIN_TOKEN=secret" ∷ bytes "RATELIMIT_COALESCE_TTL_MS=7" ∷ bytes "HOME" ∷ []

abbrev variables : Assoc Str
variables =
    (bytes "RATELIMIT_ADMIN_TOKEN", bytes "secret")
    ∷ (bytes "RATELIMIT_COALESCE_TTL_MS", bytes "7")
    ∷ []

read_environment : env_map environ ≡ variables
unfolding env_map env_map_from split_equals insert str_eq trim_space
read_environment = refl

readable : AllReadable conv (env_map environ)
unfolding env_map env_map_from split_equals insert str_eq trim_space lookup reading
readable = (inl refl, inl refl, inl refl, inl refl, inl refl, inr (pos 7, refl), inl refl, inl refl)

load_config-precedence_example :
    load_config files (λ args. some flags) conv (pos 0) (bytes "cfg.json") [] environ
    ≡ ok (settings conv (pos 0) flags (env_map environ) file)
unfolding passed str_eq
load_config-precedence_example =
    load_config-precedence files (λ args. some flags) conv (pos 0) (bytes "cfg.json") (bytes "{}")
      [] environ flags file refl refl refl refl readable

-- From the flag, the environment, the file and the defaults.
loaded_settings :
    ((settings conv (pos 0) flags (env_map environ) file).region ≡ bytes "eu")
    × ((settings conv (pos 0) flags (env_map environ) file).admin_token ≡ bytes "secret")
    × ((settings conv (pos 0) flags (env_map environ) file).channel ≡ bytes "rules")
    × ((settings conv (pos 0) flags (env_map environ) file).enable_http ≡ true)
unfolding env_map env_map_from split_equals insert str_eq trim_space lookup reading passed
loaded_settings = (refl, refl, refl, refl)

-- A number of milliseconds beyond the nanoseconds of an int64 wraps around.
long_duration : duration_ms (pos 9223372036855) ≡ negsuc 9223372036854551615
unfolding duration_ms wrap64 of_bits
long_duration = refl
