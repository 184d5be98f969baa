-- ===== src/Config/Env.antt =====
-- config_env.go: the environment. The parsers of package strconv are parameters.
use distributed_rate_limiter.Base.{◌==◌, Bool, Option, none, some, List, [], ◌∷◌, if◌then◌else◌}
use distributed_rate_limiter.Base.Int.{ℤ}
use distributed_rate_limiter.Base.Str.{Str, bytes, is_empty}
use distributed_rate_limiter.Base.Assoc.{Assoc, lookup, insert}
use Prim.Native.String.{String}
use distributed_rate_limiter.Core.Limiter.Factory.{trim_space}
use distributed_rate_limiter.Core.Models.{Result, ok, err, plain}
use distributed_rate_limiter.Config.{Config, duration_ms}

-- strings.SplitN(entry, "=", 2), where it has two parts.
unfoldable pub split_equals : Str → Option (Str × Str)
split_equals [] = none
split_equals (c ∷ s) =
    let rest = split_equals s in
    if c == 61 then some ([], s) else elim rest [ none ↦ none | some (k, v) ↦ some (c ∷ k, v) ]

abbrev env_entry : Assoc Str → Option (Str × Str) → Assoc Str
env_entry values none = values
env_entry values (some (k, v)) =
    if is_empty (trim_space k) then values else insert (trim_space k) v values

unfoldable pub env_map_from : Assoc Str → List Str → Assoc Str
unfolding split_equals
env_map_from values [] = values
env_map_from values (entry ∷ environ) = env_map_from (env_entry values (split_equals entry)) environ

-- envMap
unfoldable pub env_map : List Str → Assoc Str
unfolding env_map_from
env_map environ = env_map_from [] environ

-- strconv.ParseBool and strconv.ParseInt(·, 10, 64); `none` is an error.
pub record Strconv : Type 0 where
  pub parse_bool : Str → Option Bool
  pub parse_int : Str → Option ℤ

-- The first error ends the function.
infixl 5 ◌>>=◌
abbrev pub ◌>>=◌ {ℓ} : {A B : Type ℓ} → Result A → (A → Result B) → Result B
err e >>= f = err e
ok x >>= f = f x

-- A value that is there is set.
abbrev pub set_if {ℓ} : {A C : Type ℓ} → (A → C → C) → Option A → C → C
set_if set none cfg = cfg
set_if set (some x) cfg = set x cfg

module _ {F : Type 0} where
  unfoldable pub env_text : Assoc Str → Str → (Str → Config F → Config F) → Config F → Config F
  env_text values name set cfg = set_if set (lookup name values) cfg

  -- A variable that is parsed: parseBoolEnv, parseIntEnv.
  unfoldable pub env_parsed :
      {A : Type 0}
      → (Str → Option A)
      → Assoc Str
      → Str
      → String
      → (A → Config F → Config F)
      → Config F
      → Result (Config F)
  env_parsed parse values name message set cfg = elim (lookup name values) [
    | none ↦ ok cfg
    | some v ↦ elim (parse (trim_space v)) [ none ↦ err (plain message) | some x ↦ ok (set x cfg) ]
  ]

  abbrev pub set_region : Str → Config F → Config F
  set_region v cfg = record cfg { region = v }

  abbrev pub set_http : Bool → Config F → Config F
  set_http v cfg = record cfg { enable_http = v }

  abbrev pub set_http_addr : Str → Config F → Config F
  set_http_addr v cfg = record cfg { http_listen_addr = v }

  abbrev pub set_grpc : Bool → Config F → Config F
  set_grpc v cfg = record cfg { enable_grpc = v }

  abbrev pub set_grpc_addr : Str → Config F → Config F
  set_grpc_addr v cfg = record cfg { grpc_listen_addr = v }

  abbrev pub set_auth : Bool → Config F → Config F
  set_auth v cfg = record cfg { enable_auth = v }

  abbrev pub set_token : Str → Config F → Config F
  set_token v cfg = record cfg { admin_token = v }

  abbrev pub set_sample_rate : ℤ → Config F → Config F
  set_sample_rate v cfg = record cfg { trace_sample_rate = v }

  abbrev pub set_coalesce : Bool → Config F → Config F
  set_coalesce v cfg = record cfg { coalesce_enabled = v }

  abbrev pub set_coalesce_ttl : ℤ → Config F → Config F
  set_coalesce_ttl v cfg = record cfg { coalesce_ttl = duration_ms v }

  abbrev pub set_failures : ℤ → Config F → Config F
  set_failures v cfg = record cfg {
    breaker_options = record cfg.breaker_options { failure_threshold = v };
  }

  abbrev pub set_open : ℤ → Config F → Config F
  set_open v cfg = record cfg {
    breaker_options = record cfg.breaker_options { open_duration = duration_ms v };
  }

  module _ (conv : Strconv) where
    unfoldable pub apply_env : Assoc Str → Config F → Result (Config F)
    unfolding env_text env_parsed
    apply_env values cfg = do
      let c1 = env_text values (bytes "RATELIMIT_REGION") set_region cfg
      c2 ←
          env_parsed conv.parse_bool values (bytes "RATELIMIT_ENABLE_HTTP")
            "invalid env value for RATELIMIT_ENABLE_HTTP" set_http c1
      let c3 = env_text values (bytes "RATELIMIT_HTTP_ADDR") set_http_addr c2
      c4 ←
          env_parsed conv.parse_bool values (bytes "RATELIMIT_ENABLE_GRPC")
            "invalid env value for RATELIMIT_ENABLE_GRPC" set_grpc c3
      let c5 = env_text values (bytes "RATELIMIT_GRPC_ADDR") set_grpc_addr c4
      c6 ←
          env_parsed conv.parse_bool values (bytes "RATELIMIT_ENABLE_AUTH")
            "invalid env value for RATELIMIT_ENABLE_AUTH" set_auth c5
      let c7 = env_text values (bytes "RATELIMIT_ADMIN_TOKEN") set_token c6
      c8 ←
          env_parsed conv.parse_int values (bytes "RATELIMIT_TRACE_SAMPLE_RATE")
            "invalid env value for RATELIMIT_TRACE_SAMPLE_RATE" set_sample_rate c7
      c9 ←
          env_parsed conv.parse_bool values (bytes "RATELIMIT_COALESCE_ENABLED")
            "invalid env value for RATELIMIT_COALESCE_ENABLED" set_coalesce c8
      c10 ←
          env_parsed conv.parse_int values (bytes "RATELIMIT_COALESCE_TTL_MS")
            "invalid env value for RATELIMIT_COALESCE_TTL_MS" set_coalesce_ttl c9
      c11 ←
          env_parsed conv.parse_int values (bytes "RATELIMIT_BREAKER_FAILURE_THRESHOLD")
            "invalid env value for RATELIMIT_BREAKER_FAILURE_THRESHOLD" set_failures c10
      env_parsed conv.parse_int values (bytes "RATELIMIT_BREAKER_OPEN_MS")
          "invalid env value for RATELIMIT_BREAKER_OPEN_MS" set_open c11

    -- applyEnvOverrides
    unfoldable pub apply_env_overrides : Config F → List Str → Result (Config F)
    unfolding env_map apply_env
    apply_env_overrides cfg environ = apply_env (env_map environ) cfg
