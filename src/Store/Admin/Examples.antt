-- ===== src/Store/Admin/Examples.antt =====
-- One instance that creates, updates and deletes rules. Events are their own encoding.
use distributed_rate_limiter.Base.{◌≡◌, arith, some, List, [], ◌∷◌}
use distributed_rate_limiter.Base.Assoc.{lookup}
use distributed_rate_limiter.Base.Int.{pos}
use distributed_rate_limiter.Base.Str.{Str, bytes}
use distributed_rate_limiter.Core.Keys.{rule_key}
use distributed_rate_limiter.Core.Models.{CreateRuleRequest, UpdateRuleRequest, Result, ok}
use distributed_rate_limiter.Core.RuleCache.{RulesSnapshot, get}
use distributed_rate_limiter.Store.RuleDb.{new_rule_db}
use distributed_rate_limiter.Store.Outbox.{new_outbox}
use distributed_rate_limiter.Store.Admin.{InvalidationEvent, AdminHandler}
use distributed_rate_limiter.Store.Admin.History.{
  Request, creates, updates, deletes, handle_all, handle_all-agree,
}

abbrev hash : CreateRuleRequest → Str
hash req = req.algorithm

abbrev marshal : InvalidationEvent → Result InvalidationEvent
marshal event = ok event

abbrev creation : Str → CreateRuleRequest
creation resource = record {
  tenant_id = bytes "t";
  resource = resource;
  algorithm = bytes "fixed_window";
  limit = pos 10;
  window = pos 1000;
  burst_size = pos 0;
  idempotency_key = resource;
}

abbrev change : UpdateRuleRequest
change = record {
  tenant_id = bytes "t";
  resource = bytes "a";
  algorithm = bytes "fixed_window";
  limit = pos 20;
  window = pos 1000;
  burst_size = pos 0;
  expected_version = pos 1;
}

abbrev requests : List Request
requests =
    creates (creation (bytes "a")) 1 2
    ∷ creates (creation (bytes "b")) 3 4
    ∷ updates change 5 6
    ∷ deletes (bytes "t") (bytes "b") (pos 1) 7
    ∷ []

abbrev start : AdminHandler InvalidationEvent
start = record { db = new_rule_db; rules = some []; outbox = some (new_outbox InvalidationEvent) }

handle_all-agree_example :
    (c : RulesSnapshot) × ((handle_all InvalidationEvent hash marshal start requests).rules
      ≡ some c)
    × (get (bytes "t") (bytes "a") c
        ≡ lookup
            (rule_key (bytes "t") (bytes "a"))
            (handle_all InvalidationEvent hash marshal start requests).db.rules)
handle_all-agree_example =
    handle_all-agree InvalidationEvent hash marshal (some (new_outbox InvalidationEvent)) requests
      (bytes "t") (bytes "a") (omega arith) (omega arith, tt)
