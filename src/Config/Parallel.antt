-- ===== src/Config/Parallel.antt =====
-- The environment sets its variables independently of each other.
use distributed_rate_limiter.Base.{
  ◌≡◌, refl, ap, ◌∙◌, Option, none, some, Option-cases, inl, inr, ◌⊎◌, arith,
}
use distributed_rate_limiter.Base.Str.{Str, bytes}
use distributed_rate_limiter.Base.Assoc.{Assoc, lookup}
use Prim.Native.String.{String}
use distributed_rate_limiter.Core.Limiter.Factory.{trim_space}
use distributed_rate_limiter.Core.Models.{Result, ok}
use distributed_rate_limiter.Config.{Config, or_keep, or_keep_ms}
use distributed_rate_limiter.Config.Setters.{
  set_region_field, set_http_field, set_http_addr_field, set_grpc_field, set_grpc_addr_field,
  set_auth_field, set_token_field, set_sample_rate_field, set_coalesce_field,
  set_coalesce_ttl_field, set_failures_field, set_open_field,
}
use distributed_rate_limiter.Config.Env.{
  Strconv, ◌>>=◌, set_if, env_text, env_parsed, apply_env, set_region, set_http, set_http_addr,
  set_grpc, set_grpc_addr, set_auth, set_token, set_sample_rate, set_coalesce, set_coalesce_ttl,
  set_failures, set_open,
}

-- The value of a variable, where it is set and can be read.
unfoldable pub reading : {A : Type 0} → (Str → Option A) → Assoc Str → Str → Option A
reading parse values name = elim (lookup name values) [
  | none ↦ none
  | some v ↦ parse (trim_space v)
]

-- A variable is not set, or can be read.
abbrev pub Readable : {A : Type 0} → (Str → Option A) → Assoc Str → Str → Type 0
Readable {A} parse values name =
    (lookup name values ≡ none) ⊎ ((x : A) × (reading parse values name ≡ some x))

then_ok :
    {A B : Type 0} {m : Result A} (f : A → Result B) {x : A} {r : Result B}
    → m ≡ ok x
    → f x ≡ r
    → (m >>= f) ≡ r
then_ok f h k = ap (λ m. m >>= f) h ∙ k

module _ (conv : Strconv) (values : Assoc Str) where
  -- Every variable that is parsed.
  abbrev pub AllReadable : Type 0
  AllReadable =
      Readable conv.parse_bool values (bytes "RATELIMIT_ENABLE_HTTP")
      × Readable conv.parse_bool values (bytes "RATELIMIT_ENABLE_GRPC")
      × Readable conv.parse_bool values (bytes "RATELIMIT_ENABLE_AUTH")
      × Readable conv.parse_int values (bytes "RATELIMIT_TRACE_SAMPLE_RATE")
      × Readable conv.parse_bool values (bytes "RATELIMIT_COALESCE_ENABLED")
      × Readable conv.parse_int values (bytes "RATELIMIT_COALESCE_TTL_MS")
      × Readable conv.parse_int values (bytes "RATELIMIT_BREAKER_FAILURE_THRESHOLD")
      × Readable conv.parse_int values (bytes "RATELIMIT_BREAKER_OPEN_MS")

module _ {F : Type 0} (conv : Strconv) (values : Assoc Str) where
  -- All variables at once.
  unfoldable pub environment : Config F → Config F
  unfolding reading
  environment cfg = record cfg {
    region = or_keep (lookup (bytes "RATELIMIT_REGION") values) cfg.region;
    enable_http =
        or_keep (reading conv.parse_bool values (bytes "RATELIMIT_ENABLE_HTTP")) cfg.enable_http;
    http_listen_addr = or_keep (lookup (bytes "RATELIMIT_HTTP_ADDR") values) cfg.http_listen_addr;
    enable_grpc =
        or_keep (reading conv.parse_bool values (bytes "RATELIMIT_ENABLE_GRPC")) cfg.enable_grpc;
    grpc_listen_addr = or_keep (lookup (bytes "RATELIMIT_GRPC_ADDR") values) cfg.grpc_listen_addr;
    enable_auth =
        or_keep (reading conv.parse_bool values (bytes "RATELIMIT_ENABLE_AUTH")) cfg.enable_auth;
    admin_token = or_keep (lookup (bytes "RATELIMIT_ADMIN_TOKEN") values) cfg.admin_token;
    trace_sample_rate =
        or_keep (reading conv.parse_int values (bytes "RATELIMIT_TRACE_SAMPLE_RATE"))
          cfg.trace_sample_rate;
    coalesce_enabled =
        or_keep (reading conv.parse_bool values (bytes "RATELIMIT_COALESCE_ENABLED"))
          cfg.coalesce_enabled;
    coalesce_ttl =
        or_keep_ms (reading conv.parse_int values (bytes "RATELIMIT_COALESCE_TTL_MS"))
          cfg.coalesce_ttl;
    breaker_options = record cfg.breaker_options {
      failure_threshold =
          or_keep (reading conv.parse_int values (bytes "RATELIMIT_BREAKER_FAILURE_THRESHOLD"))
            cfg.breaker_options.failure_threshold;
      open_duration =
          or_keep_ms (reading conv.parse_int values (bytes "RATELIMIT_BREAKER_OPEN_MS"))
            cfg.breaker_options.open_duration;
    };
  }

  read_ok :
      {A : Type 0} (parse : Str → Option A) (name : Str) (message : String)
      (set : A → Config F → Config F) (cfg : Config F)
      → Readable parse values name
      → env_parsed parse values name message set cfg
        ≡ ok (set_if set (reading parse values name) cfg)
  unfolding env_parsed reading
  read_ok parse name message set cfg (inl unset) = rw (unset, env_parsed, reading) refl
  read_ok parse name message set cfg (inr (x, h)) = elim (Option-cases (lookup name values)) [
    | inl unset ↦ rw (unset, env_parsed, reading) refl
    | inr (v, e) ↦
        let parsed : parse (trim_space v) ≡ some x = ground (arith, h, e) in
        rw (e, env_parsed, reading) (rw (parsed) refl)
  ]

  -- The configurations between the statements.
  abbrev after_region : Config F → Config F
  after_region cfg = set_if set_region (lookup (bytes "RATELIMIT_REGION") values) cfg

  abbrev after_http : Config F → Config F
  after_http cfg =
      set_if set_http (reading conv.parse_bool values (bytes "RATELIMIT_ENABLE_HTTP"))
        (after_region cfg)

  abbrev after_http_addr : Config F → Config F
  after_http_addr cfg =
      set_if set_http_addr (lookup (bytes "RATELIMIT_HTTP_ADDR") values) (after_http cfg)

  abbrev after_grpc : Config F → Config F
  after_grpc cfg =
      set_if set_grpc (reading conv.parse_bool values (bytes "RATELIMIT_ENABLE_GRPC"))
        (after_http_addr cfg)

  abbrev after_grpc_addr : Config F → Config F
  after_grpc_addr cfg =
      set_if set_grpc_addr (lookup (bytes "RATELIMIT_GRPC_ADDR") values) (after_grpc cfg)

  abbrev after_auth : Config F → Config F
  after_auth cfg =
      set_if set_auth (reading conv.parse_bool values (bytes "RATELIMIT_ENABLE_AUTH"))
        (after_grpc_addr cfg)

  abbrev after_token : Config F → Config F
  after_token cfg =
      set_if set_token (lookup (bytes "RATELIMIT_ADMIN_TOKEN") values) (after_auth cfg)

  abbrev after_sample_rate : Config F → Config F
  after_sample_rate cfg =
      set_if set_sample_rate (reading conv.parse_int values (bytes "RATELIMIT_TRACE_SAMPLE_RATE"))
        (after_token cfg)

  abbrev after_coalesce : Config F → Config F
  after_coalesce cfg =
      set_if set_coalesce (reading conv.parse_bool values (bytes "RATELIMIT_COALESCE_ENABLED"))
        (after_sample_rate cfg)

  abbrev after_coalesce_ttl : Config F → Config F
  after_coalesce_ttl cfg =
      set_if set_coalesce_ttl (reading conv.parse_int values (bytes "RATELIMIT_COALESCE_TTL_MS"))
        (after_coalesce cfg)

  abbrev after_failures : Config F → Config F
  after_failures cfg =
      set_if set_failures
        (reading conv.parse_int values (bytes "RATELIMIT_BREAKER_FAILURE_THRESHOLD"))
        (after_coalesce_ttl cfg)

  abbrev after_open : Config F → Config F
  after_open cfg =
      set_if set_open (reading conv.parse_int values (bytes "RATELIMIT_BREAKER_OPEN_MS"))
        (after_failures cfg)

  sequential : (cfg : Config F) → after_open cfg ≡ environment cfg
  unfolding environment reading
  sequential cfg =
      simp
        (
          set_region_field, set_http_field, set_http_addr_field, set_grpc_field,
          set_grpc_addr_field, set_auth_field, set_token_field, set_sample_rate_field,
          set_coalesce_field, set_coalesce_ttl_field, set_failures_field, set_open_field,
        )
        refl

  -- Where every variable that is parsed is missing or can be read, applyEnvOverrides succeeds, and
  -- each variable that is set has replaced its own field: the order of the statements does not
  -- matter.
  pub apply_env-environment :
      (cfg : Config F) → AllReadable conv values → apply_env conv values cfg ≡ ok (environment cfg)
  unfolding apply_env env_text
  apply_env-environment cfg r =
      then_ok _
        (read_ok conv.parse_bool (bytes "RATELIMIT_ENABLE_HTTP")
          "invalid env value for RATELIMIT_ENABLE_HTTP" set_http (after_region cfg) r.0)
        (then_ok _
          (read_ok conv.parse_bool (bytes "RATELIMIT_ENABLE_GRPC")
            "invalid env value for RATELIMIT_ENABLE_GRPC" set_grpc (after_http_addr cfg) r.1)
          (then_ok _
            (read_ok conv.parse_bool (bytes "RATELIMIT_ENABLE_AUTH")
              "invalid env value for RATELIMIT_ENABLE_AUTH" set_auth (after_grpc_addr cfg) r.2)
            (then_ok _
              (read_ok conv.parse_int (bytes "RATELIMIT_TRACE_SAMPLE_RATE")
                "invalid env value for RATELIMIT_TRACE_SAMPLE_RATE" set_sample_rate
                (after_token cfg) r.3)
              (then_ok _
                (read_ok conv.parse_bool (bytes "RATELIMIT_COALESCE_ENABLED")
                  "invalid env value for RATELIMIT_COALESCE_ENABLED" set_coalesce
                  (after_sample_rate cfg) r.4)
                (then_ok _
                  (read_ok conv.parse_int (bytes "RATELIMIT_COALESCE_TTL_MS")
                    "invalid env value for RATELIMIT_COALESCE_TTL_MS" set_coalesce_ttl
                    (after_coalesce cfg) r.5)
                  (then_ok _
                    (read_ok conv.parse_int (bytes "RATELIMIT_BREAKER_FAILURE_THRESHOLD")
                      "invalid env value for RATELIMIT_BREAKER_FAILURE_THRESHOLD" set_failures
                      (after_coalesce_ttl cfg) r.6)
                    (read_ok conv.parse_int (bytes "RATELIMIT_BREAKER_OPEN_MS")
                        "invalid env value for RATELIMIT_BREAKER_OPEN_MS" set_open
                        (after_failures cfg) r.7
                      ∙ ap ok (sequential cfg))))))))
