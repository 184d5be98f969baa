-- ===== src/Transport/Http.antt =====
-- http_handlers.go and http_models.go: the handlers, over the rate limit handler and the admin
-- handler. The JSON decoder and the parser of a query are parameters; a response is its status and
-- what its body encodes. The transport and the handler share their metrics, as the application
-- passes them.
pub mod Admin
pub mod Laws
mod Examples
use distributed_rate_limiter.Base.{
  ℕ, Bool, true, false, not, ◌||◌, ◌++◌, if◌then◌else◌, Option, none, some, List, [], ◌∷◌, map,
}
use distributed_rate_limiter.Base.Int.{ℤ, pos, leb_ℤ}
use distributed_rate_limiter.Base.Str.{Str, bytes, str_eq, is_empty}
use distributed_rate_limiter.Core.Limiter.{Instants}
use distributed_rate_limiter.Core.Mode.{OperatingMode, mode_normal, mode_degraded, mode_emergency}
use distributed_rate_limiter.Core.Models.{
  CheckLimitRequest, CheckLimitResponse, CreateRuleRequest, UpdateRuleRequest, Rule, Result, ok,
  err, Error, ErrorCode, app, code_of, invalid_input, invalid_cost, rule_not_found,
  limiter_unavailable, limiter_error, conflict, not_found, unauthorized, forbidden,
}
use distributed_rate_limiter.Core.RedisClient.{RedisClient}
use distributed_rate_limiter.Core.Handler.{
  RateLimitHandler, Circumstances, check_limit, code_text, region_label,
}
use distributed_rate_limiter.Core.Handler.Batched.{check_limit_batch}
use distributed_rate_limiter.Observability.{observe_latency}
use distributed_rate_limiter.Store.Admin.{
  AdminHandler, InvalidationEvent, create_rule, update_rule, delete_rule, get_rule, list_rules,
}

pub record HttpCheckRequest : Type 0 where
  pub trace_id : Str
  pub tenant_id : Str
  pub user_id : Str
  pub resource : Str
  pub cost : ℤ

pub record HttpCreateRuleRequest : Type 0 where
  pub tenant_id : Str
  pub resource : Str
  pub algorithm : Str
  pub limit : ℤ
  pub window : ℤ
  pub burst_size : ℤ
  pub idempotency_key : Str

pub record HttpUpdateRuleRequest : Type 0 where
  pub tenant_id : Str
  pub resource : Str
  pub algorithm : Str
  pub limit : ℤ
  pub window : ℤ
  pub burst_size : ℤ
  pub expected_version : ℤ

pub record HttpCheckResponse : Type 0 where
  pub allowed : Bool
  pub remaining : ℤ
  pub limit : ℤ
  pub reset_after : ℤ
  pub retry_after : ℤ
  pub error_code : Str

pub record HttpRuleResponse : Type 0 where
  pub tenant_id : Str
  pub resource : Str
  pub algorithm : Str
  pub limit : ℤ
  pub window : ℤ
  pub burst_size : ℤ
  pub version : ℤ
  pub updated_at : ℕ

unfoldable pub to_check_limit_request : HttpCheckRequest → CheckLimitRequest
to_check_limit_request req = record {
  trace_id = req.trace_id;
  tenant_id = req.tenant_id;
  user_id = req.user_id;
  resource = req.resource;
  cost = req.cost;
}

unfoldable pub to_create_rule_request : HttpCreateRuleRequest → CreateRuleRequest
to_create_rule_request req = record {
  tenant_id = req.tenant_id;
  resource = req.resource;
  algorithm = req.algorithm;
  limit = req.limit;
  window = req.window;
  burst_size = req.burst_size;
  idempotency_key = req.idempotency_key;
}

unfoldable pub to_update_rule_request : HttpUpdateRuleRequest → UpdateRuleRequest
to_update_rule_request req = record {
  tenant_id = req.tenant_id;
  resource = req.resource;
  algorithm = req.algorithm;
  limit = req.limit;
  window = req.window;
  burst_size = req.burst_size;
  expected_version = req.expected_version;
}

unfoldable pub from_rule : Rule → HttpRuleResponse
from_rule r = record {
  tenant_id = r.tenant_id;
  resource = r.resource;
  algorithm = r.algorithm;
  limit = r.limit;
  window = r.window;
  burst_size = r.burst_size;
  version = r.version;
  updated_at = r.updated_at;
}

unfoldable pub from_check_limit_response : CheckLimitResponse → HttpCheckResponse
unfolding code_text
from_check_limit_response resp = record {
  allowed = resp.allowed;
  remaining = resp.remaining;
  limit = resp.limit;
  reset_after = resp.reset_after;
  retry_after = resp.retry_after;
  error_code = code_text resp.error_code;
}

pub data Method : Type 0 where
  method_get method_post method_put method_delete method_other : Method

-- A request, with the body that the server reads, if there is one.
pub record HttpRequest : Type 0 where
  pub method : Method
  pub authorization : Str
  pub query : Str → Str
  pub body : Option Str

pub data Body : Type 0 where
  empty_body : Body
  error_body : Error → Body
  check_body : HttpCheckResponse → Body
  batch_body : List HttpCheckResponse → Body
  rule_body : HttpRuleResponse → Body
  rules_body : List HttpRuleResponse → Body
  mode_body : Str → Body

pub record HttpResponse : Type 0 where
  pub status : ℕ
  pub body : Body

abbrev pub reply : ℕ → Body → HttpResponse
reply status body = record { status = status; body = body }

-- The decoding of a body of at most so many bytes as one value without unknown fields; `none` is an
-- error.
pub record Decoder : Type 0 where
  pub check : ℤ → Str → Option HttpCheckRequest
  pub batch : ℤ → Str → Option (List HttpCheckRequest)
  pub create : ℤ → Str → Option HttpCreateRuleRequest
  pub update : ℤ → Str → Option HttpUpdateRuleRequest
  pub parse_int : Str → Option ℤ

pub record HttpTransport : Type 0 where
  pub enable_auth : Bool
  pub admin_token : Str
  pub max_body_bytes : ℤ
  pub region : Str

abbrev max_bytes : HttpTransport → ℤ
max_bytes t = if leb_ℤ t.max_body_bytes (pos 0) then pos 1048576 else t.max_body_bytes

-- decodeJSON
unfoldable pub decode_json :
    {A : Type 0} → HttpTransport → (ℤ → Str → Option A) → HttpRequest → Option A
decode_json t decode r = elim r.body [ none ↦ none | some b ↦ decode (max_bytes t) b ]

unfoldable pub status_for_code : Option ErrorCode → ℕ
status_for_code none = 500
status_for_code (some invalid_input) = 400
status_for_code (some invalid_cost) = 400
status_for_code (some conflict) = 409
status_for_code (some not_found) = 404
status_for_code (some unauthorized) = 401
status_for_code (some forbidden) = 403
status_for_code (some rule_not_found) = 500
status_for_code (some limiter_unavailable) = 500
status_for_code (some limiter_error) = 500

-- The switch on the code in handleCheck and handleCheckBatch.
unfoldable pub check_status : Option ErrorCode → ℕ
check_status (some invalid_input) = 400
check_status (some invalid_cost) = 400
check_status _ = 500

unfoldable pub write_admin_error : Error → HttpResponse
unfolding status_for_code
write_admin_error e = reply (status_for_code (code_of e)) (error_body e)

abbrev pub bad_request : HttpResponse
bad_request = reply 400 (error_body (app invalid_input))

-- authorizeAdmin
unfoldable pub authorize_admin : HttpTransport → HttpRequest → Bool
authorize_admin t r =
    if not t.enable_auth then true else str_eq r.authorization (bytes "Bearer " ++ t.admin_token)

module _ (R : RedisClient) (t : HttpTransport) (decoder : Decoder) where
  abbrev timed : Str → ℤ → RateLimitHandler R → RateLimitHandler R
  timed op took s = record s { metrics = observe_latency op took (region_label t.region) s.metrics }

  abbrev pub check_answer :
      ℤ → RateLimitHandler R × Result CheckLimitResponse → RateLimitHandler R × HttpResponse
  check_answer took (s, err e) =
      (timed (bytes "httpCheck") took s, reply (check_status (code_of e)) (error_body e))
  check_answer took (s, ok resp) =
      (timed (bytes "httpCheck") took s, reply 200 (check_body (from_check_limit_response resp)))

  unfoldable pub check_decoded :
      Circumstances R
      → ℤ
      → Option HttpCheckRequest
      → RateLimitHandler R
      → RateLimitHandler R × HttpResponse
  unfolding check_status to_check_limit_request from_check_limit_response
  check_decoded c took none s = (timed (bytes "httpCheck") took s, bad_request)
  check_decoded c took (some req) s =
      if is_empty req.tenant_id
        || is_empty req.user_id
        || is_empty req.resource
        || leb_ℤ req.cost (pos 0)
      then (timed (bytes "httpCheck") took s, bad_request)
      else check_answer took (check_limit R c (some (to_check_limit_request req)) s)

  -- handleCheck
  unfoldable pub handle_check :
      Circumstances R → ℤ → HttpRequest → RateLimitHandler R → RateLimitHandler R × HttpResponse
  unfolding decode_json check_decoded
  handle_check c took r s = elim r.method [
    | method_post ↦ check_decoded c took (decode_json t decoder.check r) s
    | other ↦ (s, reply 405 empty_body)
  ]

  abbrev batch_answer :
      ℤ → RateLimitHandler R × Result (List CheckLimitResponse) → RateLimitHandler R × HttpResponse
  batch_answer took (s, err e) =
      (timed (bytes "httpCheckBatch") took s, reply (check_status (code_of e)) (error_body e))
  batch_answer took (s, ok resps) = (
    timed (bytes "httpCheckBatch") took s,
    reply 200 (batch_body (map from_check_limit_response resps)),
  )

  abbrev requests : List HttpCheckRequest → List (Option CheckLimitRequest)
  requests reqs = map (λ req. some (to_check_limit_request req)) reqs

  -- handleCheckBatch
  unfoldable pub handle_check_batch :
      (ℕ → Instants) → ℤ → ℤ → HttpRequest → RateLimitHandler R → RateLimitHandler R × HttpResponse
  unfolding decode_json check_status to_check_limit_request from_check_limit_response
  handle_check_batch at within took r s = elim r.method [
    | method_post ↦ elim (decode_json t decoder.batch r) [
      | none ↦ (timed (bytes "httpCheckBatch") took s, bad_request)
      | some reqs ↦ batch_answer took (check_limit_batch R at within (requests reqs) s)
    ]
    | other ↦ (s, reply 405 empty_body)
  ]

unfoldable pub mode_label : OperatingMode → Str
mode_label mode_normal = bytes "normal"
mode_label mode_degraded = bytes "degraded"
mode_label mode_emergency = bytes "emergency"

-- handleMode; the mode may not be configured.
unfoldable pub handle_mode : Option OperatingMode → HttpRequest → HttpResponse
unfolding mode_label
handle_mode mode r = elim r.method [
  | method_get ↦ reply 200 (mode_body (mode_label (elim mode [ none ↦ mode_normal | some m ↦ m ])))
  | other ↦ reply 405 empty_body
]
