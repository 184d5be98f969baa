-- ===== src/Config/Flags.antt =====
-- The flags that were given, by name.
use distributed_rate_limiter.Base.{
  ◌≡◌, refl, Bool, false, arith, if◌then◌else◌, ◌||◌, Bool-cases, inl, inr, Option, none, some,
  List, [], ◌∷◌,
}
use distributed_rate_limiter.Base.Str.{Str, bytes, str_eq, str_eq_iff}
use distributed_rate_limiter.Config.Load.{FlagOverrides, FlagSet, no_flags, visit, visit_all}

-- The name is among those of the flags that were set.
unfoldable pub passed : Str → List Str → Bool
passed n [] = false
passed n (name ∷ names) = str_eq name n || passed n names

-- The value of a flag, if it was set.
abbrev pub given : {A : Type 0} → FlagSet → Str → A → Option A
given fs n v = if passed n fs.visited then some v else none

-- What a visit does to the field of the flag `n`.
abbrev Sets : {A : Type 0} → FlagSet → (FlagOverrides → Option A) → Str → A → Type 0
Sets fs field n v =
    (name : Str) (o : FlagOverrides)
    → field (visit fs name o) ≡ (if str_eq name n then some v else field o)

field-visit_all :
    {A : Type 0} (fs : FlagSet) (field : FlagOverrides → Option A) (n : Str) (v : A)
    → Sets fs field n v
    → (names : List Str) (o : FlagOverrides)
    → field (visit_all fs names o) ≡ (if passed n names then some v else field o)
unfolding visit_all passed
field-visit_all fs field n v step [] o = refl
field-visit_all fs field n v step (name ∷ names) o =
    ground (arith, field-visit_all fs field n v step names (visit fs name o), step name o)

-- The two cases of a visit: the flag's own name, and another.
visit-Sets :
    {A : Type 0} (fs : FlagSet) (field : FlagOverrides → Option A) (n : Str) (v : A)
    → ((o : FlagOverrides) → field (visit fs n o) ≡ some v)
    → ((name : Str) (o : FlagOverrides) → str_eq name n ≡ false → field (visit fs name o) ≡ field o)
    → Sets fs field n v
visit-Sets fs field n v own other name o = elim (Bool-cases (str_eq name n)) [
  | inl e ↦ let same = (str_eq_iff name n).0 e in rw (e, same) (own o)
  | inr e ↦ rw (e) (other name o e)
]

-- What the visits leave in each field.
abbrev pub flags_of : FlagSet → FlagOverrides
flags_of fs = visit_all fs fs.visited no_flags

module _ (fs : FlagSet) where
  pub config_path_given : (flags_of fs).config_path ≡ given fs (bytes "config") fs.config
  unfolding visit str_eq
  config_path_given =
      field-visit_all fs (λ o. o.config_path) (bytes "config") fs.config
        (visit-Sets fs (λ o. o.config_path) (bytes "config") fs.config (λ o. refl)
          (λ name o e. rw (e) (ground arith)))
        fs.visited no_flags

  pub region_given : (flags_of fs).region ≡ given fs (bytes "region") fs.region
  unfolding visit str_eq
  region_given =
      field-visit_all fs (λ o. o.region) (bytes "region") fs.region
        (visit-Sets fs (λ o. o.region) (bytes "region") fs.region (λ o. refl)
          (λ name o e. rw (e) (ground arith)))
        fs.visited no_flags

  pub enable_http_given : (flags_of fs).enable_http ≡ given fs (bytes "enable_http") fs.enable_http
  unfolding visit str_eq
  enable_http_given =
      field-visit_all fs (λ o. o.enable_http) (bytes "enable_http") fs.enable_http
        (visit-Sets fs (λ o. o.enable_http) (bytes "enable_http") fs.enable_http (λ o. refl)
          (λ name o e. rw (e) (ground arith)))
        fs.visited no_flags

  pub http_listen_addr_given :
      (flags_of fs).http_listen_addr ≡ given fs (bytes "http_addr") fs.http_addr
  unfolding visit str_eq
  http_listen_addr_given =
      field-visit_all fs (λ o. o.http_listen_addr) (bytes "http_addr") fs.http_addr
        (visit-Sets fs (λ o. o.http_listen_addr) (bytes "http_addr") fs.http_addr (λ o. refl)
          (λ name o e. rw (e) (ground arith)))
        fs.visited no_flags

  pub enable_grpc_given : (flags_of fs).enable_grpc ≡ given fs (bytes "enable_grpc") fs.enable_grpc
  unfolding visit str_eq
  enable_grpc_given =
      field-visit_all fs (λ o. o.enable_grpc) (bytes "enable_grpc") fs.enable_grpc
        (visit-Sets fs (λ o. o.enable_grpc) (bytes "enable_grpc") fs.enable_grpc (λ o. refl)
          (λ name o e. rw (e) (ground arith)))
        fs.visited no_flags

  pub grpc_listen_addr_given :
      (flags_of fs).grpc_listen_addr ≡ given fs (bytes "grpc_addr") fs.grpc_addr
  unfolding visit str_eq
  grpc_listen_addr_given =
      field-visit_all fs (λ o. o.grpc_listen_addr) (bytes "grpc_addr") fs.grpc_addr
        (visit-Sets fs (λ o. o.grpc_listen_addr) (bytes "grpc_addr") fs.grpc_addr (λ o. refl)
          (λ name o e. rw (e) (ground arith)))
        fs.visited no_flags

  pub enable_auth_given : (flags_of fs).enable_auth ≡ given fs (bytes "enable_auth") fs.enable_auth
  unfolding visit str_eq
  enable_auth_given =
      field-visit_all fs (λ o. o.enable_auth) (bytes "enable_auth") fs.enable_auth
        (visit-Sets fs (λ o. o.enable_auth) (bytes "enable_auth") fs.enable_auth (λ o. refl)
          (λ name o e. rw (e) (ground arith)))
        fs.visited no_flags

  pub admin_token_given : (flags_of fs).admin_token ≡ given fs (bytes "admin_token") fs.admin_token
  unfolding visit str_eq
  admin_token_given =
      field-visit_all fs (λ o. o.admin_token) (bytes "admin_token") fs.admin_token
        (visit-Sets fs (λ o. o.admin_token) (bytes "admin_token") fs.admin_token (λ o. refl)
          (λ name o e. rw (e) (ground arith)))
        fs.visited no_flags

  pub trace_sample_rate_given :
      (flags_of fs).trace_sample_rate ≡ given fs (bytes "trace_sample_rate") fs.trace_sample_rate
  unfolding visit str_eq
  trace_sample_rate_given =
      field-visit_all fs (λ o. o.trace_sample_rate) (bytes "trace_sample_rate") fs.trace_sample_rate
        (visit-Sets fs (λ o. o.trace_sample_rate) (bytes "trace_sample_rate") fs.trace_sample_rate
          (λ o. refl) (λ name o e. rw (e) (ground arith)))
        fs.visited no_flags

  pub coalesce_enabled_given :
      (flags_of fs).coalesce_enabled ≡ given fs (bytes "coalesce_enabled") fs.coalesce_enabled
  unfolding visit str_eq
  coalesce_enabled_given =
      field-visit_all fs (λ o. o.coalesce_enabled) (bytes "coalesce_enabled") fs.coalesce_enabled
        (visit-Sets fs (λ o. o.coalesce_enabled) (bytes "coalesce_enabled") fs.coalesce_enabled
          (λ o. refl) (λ name o e. rw (e) (ground arith)))
        fs.visited no_flags

  pub coalesce_ttl_ms_given :
      (flags_of fs).coalesce_ttl_ms ≡ given fs (bytes "coalesce_ttl_ms") fs.coalesce_ttl_ms
  unfolding visit str_eq
  coalesce_ttl_ms_given =
      field-visit_all fs (λ o. o.coalesce_ttl_ms) (bytes "coalesce_ttl_ms") fs.coalesce_ttl_ms
        (visit-Sets fs (λ o. o.coalesce_ttl_ms) (bytes "coalesce_ttl_ms") fs.coalesce_ttl_ms
          (λ o. refl) (λ name o e. rw (e) (ground arith)))
        fs.visited no_flags

  pub breaker_failure_threshold_given :
      (flags_of fs).breaker_failure_threshold
      ≡ given fs (bytes "breaker_failure_threshold") fs.breaker_failure_threshold
  unfolding visit str_eq
  breaker_failure_threshold_given =
      field-visit_all fs (λ o. o.breaker_failure_threshold) (bytes "breaker_failure_threshold")
        fs.breaker_failure_threshold
        (visit-Sets fs (λ o. o.breaker_failure_threshold) (bytes "breaker_failure_threshold")
          fs.breaker_failure_threshold (λ o. refl) (λ name o e. rw (e) (ground arith)))
        fs.visited no_flags

  pub breaker_open_ms_given :
      (flags_of fs).breaker_open_ms ≡ given fs (bytes "breaker_open_ms") fs.breaker_open_ms
  unfolding visit str_eq
  breaker_open_ms_given =
      field-visit_all fs (λ o. o.breaker_open_ms) (bytes "breaker_open_ms") fs.breaker_open_ms
        (visit-Sets fs (λ o. o.breaker_open_ms) (bytes "breaker_open_ms") fs.breaker_open_ms
          (λ o. refl) (λ name o e. rw (e) (ground arith)))
        fs.visited no_flags
