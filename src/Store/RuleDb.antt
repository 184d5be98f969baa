-- ===== src/Store/RuleDb.antt =====
-- db_inmemory.go: the rule database. The mutex makes each method one step. The hash of a request
-- (SHA-256 over its fields, package crypto/sha256) is a parameter.
pub mod Laws
mod Examples
use distributed_rate_limiter.Base.{
  ℕ, ◌+◌, Bool, true, false, not, ◌||◌, Option, none, some, List, [], ◌∷◌, if◌then◌else◌,
}
use distributed_rate_limiter.Base.Assoc.{Assoc, lookup, insert, remove}
use distributed_rate_limiter.Base.Int.{ℤ, pos, add64, leb_ℤ, eqb_ℤ}
use distributed_rate_limiter.Base.Str.{Str, str_eq, is_empty}
use distributed_rate_limiter.Core.Keys.{rule_key}
use distributed_rate_limiter.Core.Models.{
  Rule, CreateRuleRequest, UpdateRuleRequest, Result, ok, err, Error, app, invalid_input, conflict,
  not_found,
}

pub record IdempotencyRecord : Type 0 where
  pub rule_key : Str
  pub payload_hash : Str

pub record RuleDb : Type 0 where
  pub rules : Assoc Rule
  pub idempotency : Assoc IdempotencyRecord

unfoldable pub new_rule_db : RuleDb
new_rule_db = record { rules = []; idempotency = [] }

abbrev found : Option Rule → Error → Result Rule
found none e = err e
found (some r) e = ok r

-- The rule that a request creates, of version 1.
abbrev pub created : CreateRuleRequest → ℕ → Rule
created req now = record {
  tenant_id = req.tenant_id;
  resource = req.resource;
  algorithm = req.algorithm;
  limit = req.limit;
  window = req.window;
  burst_size = req.burst_size;
  version = pos 1;
  updated_at = now;
}

abbrev remember : Str → Str → Str → Assoc IdempotencyRecord → Assoc IdempotencyRecord
remember token key hash m =
    if is_empty token then m else insert token (record { rule_key = key; payload_hash = hash }) m

abbrev insert_new : RuleDb → Str → Str → CreateRuleRequest → ℕ → Option Rule → RuleDb × Result Rule
insert_new db key hash req now (some r) = (db, err (app conflict))
insert_new db key hash req now none = (
  record {
    rules = insert key (created req now) db.rules;
    idempotency = remember req.idempotency_key key hash db.idempotency;
  },
  ok (created req now),
)

-- What a known idempotency key returns: the rule that it made, if the payload is the same and the
-- rule is still there.
abbrev replay : RuleDb → Str → IdempotencyRecord → Result Rule
replay db hash r =
    if str_eq r.payload_hash hash
    then found (lookup r.rule_key db.rules) (app conflict)
    else err (app conflict)

abbrev pub recorded : Str → RuleDb → Option IdempotencyRecord
recorded token db = if is_empty token then none else lookup token db.idempotency

abbrev create_checked :
    RuleDb → Str → Str → CreateRuleRequest → ℕ → Option IdempotencyRecord → RuleDb × Result Rule
create_checked db key hash req now (some r) = (db, replay db hash r)
create_checked db key hash req now none = insert_new db key hash req now (lookup key db.rules)

-- Create
unfoldable pub create :
    (CreateRuleRequest → Str) → RuleDb → Option CreateRuleRequest → ℕ → RuleDb × Result Rule
create hash db none now = (db, err (app invalid_input))
create hash db (some req) now =
    if (is_empty req.tenant_id || is_empty req.resource) || leb_ℤ req.limit (pos 0)
    then (db, err (app invalid_input))
    else create_checked db (rule_key req.tenant_id req.resource) (hash req) req now
        (recorded req.idempotency_key db)

-- The rule after an update: the fields of the request, and the next version.
abbrev pub updated : UpdateRuleRequest → ℤ → ℕ → Rule
updated req version now = record {
  tenant_id = req.tenant_id;
  resource = req.resource;
  algorithm = req.algorithm;
  limit = req.limit;
  window = req.window;
  burst_size = req.burst_size;
  version = add64 version (pos 1);
  updated_at = now;
}

abbrev update_found : RuleDb → Str → UpdateRuleRequest → ℕ → Option Rule → RuleDb × Result Rule
update_found db key req now none = (db, err (app not_found))
update_found db key req now (some r) =
    if eqb_ℤ r.version req.expected_version
    then (
      record db { rules = insert key (updated req r.version now) db.rules },
      ok (updated req r.version now),
    )
    else (db, err (app conflict))

-- Update
unfoldable pub update : RuleDb → Option UpdateRuleRequest → ℕ → RuleDb × Result Rule
update db none now = (db, err (app invalid_input))
update db (some req) now =
    if (is_empty req.tenant_id || is_empty req.resource) || leb_ℤ req.limit (pos 0)
    then (db, err (app invalid_input))
    else update_found db (rule_key req.tenant_id req.resource) req now
        (lookup (rule_key req.tenant_id req.resource) db.rules)

abbrev delete_found : RuleDb → Str → ℤ → Option Rule → RuleDb × Option Error
delete_found db key expected_version none = (db, some (app not_found))
delete_found db key expected_version (some r) =
    if eqb_ℤ r.version expected_version
    then (record db { rules = remove key db.rules }, none)
    else (db, some (app conflict))

-- Delete; `none` is success.
unfoldable pub delete : RuleDb → Str → Str → ℤ → RuleDb × Option Error
delete db tenant_id resource expected_version =
    if is_empty tenant_id || is_empty resource
    then (db, some (app invalid_input))
    else delete_found db (rule_key tenant_id resource) expected_version
        (lookup (rule_key tenant_id resource) db.rules)

-- Get
unfoldable pub get : RuleDb → Str → Str → Result Rule
get db tenant_id resource =
    if is_empty tenant_id || is_empty resource
    then err (app invalid_input)
    else found (lookup (rule_key tenant_id resource) db.rules) (app not_found)

unfoldable pub rules_of : Str → Assoc Rule → List Rule
rules_of tenant_id [] = []
rules_of tenant_id ((k, r) ∷ m) =
    let rest = rules_of tenant_id m in if str_eq r.tenant_id tenant_id then r ∷ rest else rest

-- List
unfoldable pub list : RuleDb → Str → Result (List Rule)
unfolding rules_of
list db tenant_id =
    if is_empty tenant_id then err (app invalid_input) else ok (rules_of tenant_id db.rules)

-- LoadAll
unfoldable pub load_all : Assoc Rule → List (Option Rule)
load_all [] = []
load_all ((k, r) ∷ m) = some r ∷ load_all m
