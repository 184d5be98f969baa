-- ===== src/Transport/Http/Admin.antt =====
-- http_handlers.go: the admin routes.
use distributed_rate_limiter.Base.{ℕ, ◌||◌, if◌then◌else◌, Option, none, some, map}
use distributed_rate_limiter.Base.Int.{pos, leb_ℤ}
use distributed_rate_limiter.Base.Str.{Str, bytes, is_empty}
use distributed_rate_limiter.Core.Models.{
  CreateRuleRequest, Rule, Result, ok, err, Error, app, unauthorized,
}
use distributed_rate_limiter.Store.Admin.{
  AdminHandler, InvalidationEvent, create_rule, update_rule, delete_rule, get_rule, list_rules,
}
use distributed_rate_limiter.Transport.Http.{
  HttpCreateRuleRequest, HttpUpdateRuleRequest, HttpRequest, HttpResponse, HttpTransport, Decoder,
  empty_body, error_body, rule_body, rules_body, method_get, method_post, method_put, method_delete,
  method_other, reply, bad_request, decode_json, write_admin_error, authorize_admin,
  to_create_rule_request, to_update_rule_request, from_rule,
}

-- The answer of authorizeAdmin when it refuses.
abbrev pub unauthorized_reply : HttpResponse
unauthorized_reply = reply 401 (error_body (app unauthorized))

module _ (Data : Type 0) (hash : CreateRuleRequest → Str)
    (marshal : InvalidationEvent → Result Data) (t : HttpTransport) (decoder : Decoder) where
  abbrev rule_answer : ℕ → AdminHandler Data × Result Rule → AdminHandler Data × HttpResponse
  rule_answer status (h, err e) = (h, write_admin_error e)
  rule_answer status (h, ok r) = (h, reply status (rule_body (from_rule r)))

  unfoldable pub create_decoded :
      ℕ → ℕ → Option HttpCreateRuleRequest → AdminHandler Data → AdminHandler Data × HttpResponse
  unfolding write_admin_error from_rule to_create_rule_request
  create_decoded now later none h = (h, bad_request)
  create_decoded now later (some req) h =
      if is_empty req.tenant_id
        || is_empty req.resource
        || is_empty req.algorithm
        || leb_ℤ req.limit (pos 0)
      then (h, bad_request)
      else rule_answer 201
          (create_rule Data hash marshal h (some (to_create_rule_request req)) now later)

  unfoldable pub update_decoded :
      ℕ → ℕ → Option HttpUpdateRuleRequest → AdminHandler Data → AdminHandler Data × HttpResponse
  unfolding write_admin_error from_rule to_update_rule_request
  update_decoded now later none h = (h, bad_request)
  update_decoded now later (some req) h =
      if is_empty req.tenant_id
        || is_empty req.resource
        || is_empty req.algorithm
        || leb_ℤ req.limit (pos 0)
      then (h, bad_request)
      else rule_answer 200
          (update_rule Data hash marshal h (some (to_update_rule_request req)) now later)

  abbrev delete_answer : AdminHandler Data × Option Error → AdminHandler Data × HttpResponse
  delete_answer (h, some e) = (h, write_admin_error e)
  delete_answer (h, none) = (h, reply 204 empty_body)

  unfoldable pub handle_delete_rule :
      ℕ → HttpRequest → AdminHandler Data → AdminHandler Data × HttpResponse
  unfolding write_admin_error
  handle_delete_rule now r h =
      let tenant_id = r.query (bytes "tenantID") in
      let resource = r.query (bytes "resource") in
      let version = r.query (bytes "expectedVersion") in
      if is_empty tenant_id || is_empty resource || is_empty version
      then (h, bad_request)
      else elim (decoder.parse_int version) [
        | none ↦ (h, bad_request)
        | some v ↦ delete_answer (delete_rule Data hash marshal h tenant_id resource v now)
      ]

  unfoldable pub handle_get_rule : HttpRequest → AdminHandler Data → HttpResponse
  unfolding write_admin_error from_rule
  handle_get_rule r h =
      let tenant_id = r.query (bytes "tenantID") in
      let resource = r.query (bytes "resource") in
      if is_empty tenant_id || is_empty resource
      then bad_request
      else elim (get_rule Data hash marshal h tenant_id resource) [
        | err e ↦ write_admin_error e
        | ok rule ↦ reply 200 (rule_body (from_rule rule))
      ]

  -- The switch on the method in handleRules.
  unfoldable pub route_rules :
      ℕ → ℕ → HttpRequest → AdminHandler Data → AdminHandler Data × HttpResponse
  unfolding create_decoded update_decoded handle_delete_rule handle_get_rule decode_json
  route_rules now later r h = elim r.method [
    | method_post ↦ create_decoded now later (decode_json t decoder.create r) h
    | method_put ↦ update_decoded now later (decode_json t decoder.update r) h
    | method_delete ↦ handle_delete_rule now r h
    | method_get ↦ (h, handle_get_rule r h)
    | method_other ↦ (h, reply 405 empty_body)
  ]

  -- handleRules
  unfoldable pub handle_rules :
      ℕ → ℕ → HttpRequest → AdminHandler Data → AdminHandler Data × HttpResponse
  unfolding route_rules authorize_admin
  handle_rules now later r h =
      if authorize_admin t r then route_rules now later r h else (h, unauthorized_reply)

  unfoldable pub list_authorized : HttpRequest → AdminHandler Data → HttpResponse
  unfolding write_admin_error from_rule
  list_authorized r h =
      let tenant_id = r.query (bytes "tenantID") in
      if is_empty tenant_id then bad_request else elim (list_rules Data hash marshal h tenant_id) [
        | err e ↦ write_admin_error e
        | ok rules ↦ reply 200 (rules_body (map from_rule rules))
      ]

  -- handleRulesList
  unfoldable pub handle_rules_list : HttpRequest → AdminHandler Data → HttpResponse
  unfolding authorize_admin list_authorized
  handle_rules_list r h = elim r.method [
    | method_get ↦ if authorize_admin t r then list_authorized r h else unauthorized_reply
    | other ↦ reply 405 empty_body
  ]
