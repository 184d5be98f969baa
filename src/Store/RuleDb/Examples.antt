-- ===== src/Store/RuleDb/Examples.antt =====
-- The database at concrete requests, with the algorithm's name for the hash of a request.
use distributed_rate_limiter.Base.{ℕ, ◌≡◌, refl, arith, some, [], ◌∷◌}
use distributed_rate_limiter.Base.Int.{pos}
use distributed_rate_limiter.Base.Str.{Str, bytes, str_eq}
use distributed_rate_limiter.Base.Assoc.{lookup, insert}
use distributed_rate_limiter.Core.Keys.{rule_key}
use distributed_rate_limiter.Core.Models.{CreateRuleRequest, UpdateRuleRequest, err, app, conflict}
use distributed_rate_limiter.Store.RuleDb.{RuleDb, new_rule_db, create, update, get, created}
use distributed_rate_limiter.Store.RuleDb.Laws.{create_again, update_twice}

abbrev hash : CreateRuleRequest → Str
hash req = req.algorithm

abbrev request : Str → CreateRuleRequest
request algorithm = record {
  tenant_id = bytes "t";
  resource = bytes "r";
  algorithm = algorithm;
  limit = pos 10;
  window = pos 1000;
  burst_size = pos 0;
  idempotency_key = bytes "i";
}

abbrev first : CreateRuleRequest
first = request (bytes "fixed_window")

abbrev other : CreateRuleRequest
other = request (bytes "token_bucket")

abbrev change : ℕ → UpdateRuleRequest
change limit = record {
  tenant_id = bytes "t";
  resource = bytes "r";
  algorithm = bytes "fixed_window";
  limit = pos limit;
  window = pos 1000;
  burst_size = pos 0;
  expected_version = pos 1;
}

abbrev stored : RuleDb
stored = record {
  rules = (rule_key (bytes "t") (bytes "r"), created first 5000) ∷ [];
  idempotency = [];
}

program : Unit {0}
unfolding lookup insert str_eq new_rule_db get rule_key
program = tt

create_again_example :
    create hash (create hash new_rule_db (some first) 5000).0 (some other) 6000
    ≡ ((create hash new_rule_db (some first) 5000).0, err (app conflict))
unfolding program
create_again_example =
    create_again hash new_rule_db first other 5000 6000 (refl, refl, omega arith)
      (refl, refl, omega arith) refl refl refl refl

update_twice_example :
    update (update stored (some (change 20)) 6000).0 (some (change 30)) 7000
    ≡ ((update stored (some (change 20)) 6000).0, err (app conflict))
unfolding program
update_twice_example =
    update_twice stored (change 20) (change 30) 6000 7000 (created first 5000)
      (refl, refl, omega arith) (refl, refl, omega arith) refl (omega arith) refl refl refl refl
