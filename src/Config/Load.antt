-- ===== src/Config/Load.antt =====
-- config_load.go: the flags, the file and LoadConfig. Package flag, the file system and the JSON
-- decoder are parameters.
use distributed_rate_limiter.Base.{Bool, true, Option, none, some, List, [], ◌∷◌, if◌then◌else◌}
use distributed_rate_limiter.Base.Int.{ℤ}
use distributed_rate_limiter.Base.Str.{Str, bytes, str_eq, is_empty}
use distributed_rate_limiter.Core.Models.{Result, ok, err, plain}
use distributed_rate_limiter.Config.{
  Config, ConfigOverrides, DurationValue, default_config, apply_config_overrides, or_keep,
  or_keep_ms, duration_ms,
}
use distributed_rate_limiter.Config.Env.{Strconv, ◌>>=◌, apply_env_overrides}

pub record FlagOverrides : Type 0 where
  pub config_path : Option Str
  pub region : Option Str
  pub enable_http : Option Bool
  pub http_listen_addr : Option Str
  pub enable_grpc : Option Bool
  pub grpc_listen_addr : Option Str
  pub enable_auth : Option Bool
  pub admin_token : Option Str
  pub trace_sample_rate : Option ℤ
  pub coalesce_enabled : Option Bool
  pub coalesce_ttl_ms : Option ℤ
  pub breaker_failure_threshold : Option ℤ
  pub breaker_open_ms : Option ℤ

-- What a parsed flag set has for each flag that parseFlagOverrides declares, and the names of those
-- that were set, in the order of Visit.
pub record FlagSet : Type 0 where
  pub config : Str
  pub region : Str
  pub enable_http : Bool
  pub http_addr : Str
  pub enable_grpc : Bool
  pub grpc_addr : Str
  pub enable_auth : Bool
  pub admin_token : Str
  pub trace_sample_rate : ℤ
  pub coalesce_enabled : Bool
  pub coalesce_ttl_ms : ℤ
  pub breaker_failure_threshold : ℤ
  pub breaker_open_ms : ℤ
  pub visited : List Str

abbrev pub no_flags : FlagOverrides
no_flags = record {
  config_path = none;
  region = none;
  enable_http = none;
  http_listen_addr = none;
  enable_grpc = none;
  grpc_listen_addr = none;
  enable_auth = none;
  admin_token = none;
  trace_sample_rate = none;
  coalesce_enabled = none;
  coalesce_ttl_ms = none;
  breaker_failure_threshold = none;
  breaker_open_ms = none;
}

-- The switch on the name of a visited flag.
unfoldable pub visit : FlagSet → Str → FlagOverrides → FlagOverrides
visit fs name o =
    if str_eq name (bytes "config")
    then record o { config_path = some fs.config }
    else if str_eq name (bytes "region")
    then record o { region = some fs.region }
    else if str_eq name (bytes "enable_http")
    then record o { enable_http = some fs.enable_http }
    else if str_eq name (bytes "http_addr")
    then record o { http_listen_addr = some fs.http_addr }
    else if str_eq name (bytes "enable_grpc")
    then record o { enable_grpc = some fs.enable_grpc }
    else if str_eq name (bytes "grpc_addr")
    then record o { grpc_listen_addr = some fs.grpc_addr }
    else if str_eq name (bytes "enable_auth")
    then record o { enable_auth = some fs.enable_auth }
    else if str_eq name (bytes "admin_token")
    then record o { admin_token = some fs.admin_token }
    else if str_eq name (bytes "trace_sample_rate")
    then record o { trace_sample_rate = some fs.trace_sample_rate }
    else if str_eq name (bytes "coalesce_enabled")
    then record o { coalesce_enabled = some fs.coalesce_enabled }
    else if str_eq name (bytes "coalesce_ttl_ms")
    then record o { coalesce_ttl_ms = some fs.coalesce_ttl_ms }
    else if str_eq name (bytes "breaker_failure_threshold")
    then record o { breaker_failure_threshold = some fs.breaker_failure_threshold }
    else if str_eq name (bytes "breaker_open_ms")
    then record o { breaker_open_ms = some fs.breaker_open_ms }
    else o

unfoldable pub visit_all : FlagSet → List Str → FlagOverrides → FlagOverrides
unfolding visit
visit_all fs [] o = o
visit_all fs (name ∷ names) o = visit_all fs names (visit fs name o)

-- parseFlagOverrides; Parse of package flag is the parameter, `none` its error.
unfoldable pub parse_flag_overrides : (List Str → Option FlagSet) → List Str → Result FlagOverrides
unfolding visit_all
parse_flag_overrides parse args = elim (parse args) [
  | none ↦ err (plain "invalid flag values")
  | some fs ↦ ok (visit_all fs fs.visited no_flags)
]

-- applyFlagOverrides
unfoldable pub apply_flag_overrides : {F : Type 0} → Config F → FlagOverrides → Config F
apply_flag_overrides cfg o = record cfg {
  region = or_keep o.region cfg.region;
  enable_http = or_keep o.enable_http cfg.enable_http;
  http_listen_addr = or_keep o.http_listen_addr cfg.http_listen_addr;
  enable_grpc = or_keep o.enable_grpc cfg.enable_grpc;
  grpc_listen_addr = or_keep o.grpc_listen_addr cfg.grpc_listen_addr;
  enable_auth = or_keep o.enable_auth cfg.enable_auth;
  admin_token = or_keep o.admin_token cfg.admin_token;
  trace_sample_rate = or_keep o.trace_sample_rate cfg.trace_sample_rate;
  coalesce_enabled = or_keep o.coalesce_enabled cfg.coalesce_enabled;
  coalesce_ttl = or_keep_ms o.coalesce_ttl_ms cfg.coalesce_ttl;
  breaker_options = record cfg.breaker_options {
    failure_threshold = or_keep o.breaker_failure_threshold cfg.breaker_options.failure_threshold;
    open_duration = or_keep_ms o.breaker_open_ms cfg.breaker_options.open_duration;
  };
}

-- What the JSON decoder makes of a value: an integer's digits or another number's text, a text, or
-- neither.
pub data JsonScalar : Type 0 where
  json_null : JsonScalar
  json_number : Str → JsonScalar
  json_text : Str → JsonScalar
  json_other : JsonScalar

abbrev as_duration : DurationValue → Option ℤ → Option DurationValue
as_duration d none = none
as_duration d (some n) = some (record { value = duration_ms n; set = true })

-- durationValue.UnmarshalJSON; `none` is an error.
unfoldable pub unmarshal_duration : Strconv → JsonScalar → DurationValue → Option DurationValue
unmarshal_duration conv json_null d = some d
unmarshal_duration conv (json_number s) d = as_duration d (conv.parse_int s)
unmarshal_duration conv (json_text s) d = as_duration d (conv.parse_int s)
unmarshal_duration conv json_other d = none

-- os.ReadFile, and json.Unmarshal of the overrides.
pub record Files (F : Type 0) : Type 0 where
  pub read_file : Str → Result Str
  pub unmarshal : Str → Result (ConfigOverrides F)

module _ {F : Type 0} (files : Files F) where
  unfoldable pub load_config_file : Str → Result (ConfigOverrides F)
  load_config_file path = do content ← files.read_file path; files.unmarshal content

  -- The overrides of the file, if there is a path.
  unfoldable pub with_file : Str → Config F → Result (Config F)
  unfolding load_config_file
  with_file path cfg =
      if is_empty path
      then ok cfg
      else (load_config_file path >>= λ o. ok (apply_config_overrides cfg o))

  -- LoadConfig, with the arguments and the environment given.
  unfoldable pub load_config :
      (List Str → Option FlagSet) → Strconv → F → Str → List Str → List Str → Result (Config F)
  unfolding with_file parse_flag_overrides
  load_config parse conv zero_float path args environ = do
    flags ← parse_flag_overrides parse args
    cfg ← with_file (or_keep flags.config_path path) (default_config zero_float)
    cfg' ← apply_env_overrides conv cfg environ
    ok (apply_flag_overrides cfg' flags)
