-- ===== src/Transport/Http/Examples.antt =====
-- Requests to the sample handler and to an empty admin handler.
use distributed_rate_limiter.Base.{◌≡◌, ◌≢◌, refl, arith, ◌⊎◌, true, none, some, []}
use distributed_rate_limiter.Base.Int.{pos}
use distributed_rate_limiter.Base.Str.{Str, bytes}
use distributed_rate_limiter.Core.Models.{ok}
use distributed_rate_limiter.Store.Admin.{AdminHandler}
use distributed_rate_limiter.Store.RuleDb.{new_rule_db}
use distributed_rate_limiter.Core.Handler.Sample.{redis, handler, alone}
use distributed_rate_limiter.Transport.Http.{
  HttpRequest, HttpTransport, Decoder, method_post, method_delete, empty_body, reply, decode_json,
  handle_check, check_decoded,
}
use distributed_rate_limiter.Transport.Http.Admin.{
  handle_rules, handle_rules_list, unauthorized_reply,
}
use distributed_rate_limiter.Transport.Http.Laws.{handle_rules-unauthorized, handle_check-unserved}

abbrev transport : HttpTransport
transport = record {
  enable_auth = true;
  admin_token = bytes "s";
  max_body_bytes = pos 0;
  region = bytes "eu";
}

-- The decoder fails on every body.
abbrev decoder : Decoder
decoder = record {
  check = λ max s. none;
  batch = λ max s. none;
  create = λ max s. none;
  update = λ max s. none;
  parse_int = λ s. some (pos 1);
}

abbrev deletion : HttpRequest
deletion = record {
  method = method_delete;
  authorization = bytes "Bearer x";
  query = λ name. bytes "t";
  body = none;
}

abbrev check : HttpRequest
check = record deletion { method = method_post; body = some (bytes "{}") }

abbrev admin : AdminHandler Str
admin = record { db = new_rule_db; rules = none; outbox = none }

handle_rules-unauthorized_example :
    (handle_rules Str (λ req. []) (λ e. ok []) transport decoder 5 6 deletion admin
      ≡ (admin, unauthorized_reply))
    × ((handle_rules_list Str (λ req. []) (λ e. ok []) transport decoder deletion admin
          ≡ unauthorized_reply)
        ⊎ (handle_rules_list Str (λ req. []) (λ e. ok []) transport decoder deletion admin
            ≡ reply 405 empty_body))
handle_rules-unauthorized_example =
    handle_rules-unauthorized Str (λ req. []) (λ e. ok []) transport decoder 5 6 deletion admin refl
      (λ e. ground (arith, e))

not_served : (handle_check redis transport decoder alone (pos 9) check handler).1.status ≢ 200
unfolding handle_check check_decoded decode_json
not_served h = ground (arith, h)

handle_check-unserved_example :
    (handle_check redis transport decoder alone (pos 9) check handler).0.world ≡ handler.world
handle_check-unserved_example =
    handle_check-unserved redis transport decoder alone (pos 9) check handler not_served
