-- ===== src/Store/RuleDb/Laws.antt =====
-- Versions, optimistic concurrency and idempotent creation.
use distributed_rate_limiter.Base.{
  ℕ, ◌≡◌, ◌≢◌, refl, arith, false, ◌||◌, sym, ◌∙◌, if◌then◌else◌, none, some, Bool-cases, inl, inr,
}
use distributed_rate_limiter.Base.Assoc.{lookup, lookup-insert_self}
use distributed_rate_limiter.Base.Int.{
  ℤ, pos, negsuc, leb_ℤ, eqb_ℤ, eqb_ℤ_iff, ◌<ℤ◌, add64, IsInt64,
}
use distributed_rate_limiter.Base.Str.{Str, str_eq, is_empty}
use distributed_rate_limiter.Core.Keys.{rule_key}
use distributed_rate_limiter.Core.Models.{
  Rule, CreateRuleRequest, UpdateRuleRequest, ok, err, app, conflict,
}
use distributed_rate_limiter.Store.RuleDb.{RuleDb, create, update, get, created, updated, recorded}

-- The names of a request that the database takes.
abbrev pub Valid : Str → Str → ℤ → Type 0
Valid t s limit = (is_empty t ≡ false) × (is_empty s ≡ false) × (pos 0 <ℤ limit)

Valid-test :
    (t s : Str) (limit : ℤ)
    → Valid t s limit
    → ((is_empty t || is_empty s) || leb_ℤ limit (pos 0)) ≡ false
Valid-test t s limit (a, b, c) = ground arith

-- A valid request for a new rule, under a key that is free and an idempotency key that is new or empty: it is stored
-- as version 1, and Get returns it.
pub get-create :
    (hash : CreateRuleRequest → Str) (db : RuleDb) (req : CreateRuleRequest) (now : ℕ)
    → Valid req.tenant_id req.resource req.limit
    → recorded req.idempotency_key db ≡ none
    → lookup (rule_key req.tenant_id req.resource) db.rules ≡ none
    → ((create hash db (some req) now).1 ≡ ok (created req now))
      × (get (create hash db (some req) now).0 req.tenant_id req.resource ≡ ok (created req now))
unfolding create get
get-create hash db req now v fresh free =
    rw (Valid-test req.tenant_id req.resource req.limit v, fresh, free)
      (refl, rw (v.0, v.1, lookup-insert_self))

-- Two valid requests with the same idempotency key, the first of which makes a new rule: if their
-- hashes are the same, the second gets the same answer, and
-- the database stays as it is. With another hash it is a conflict, and changes nothing either.
pub create_again :
    (hash : CreateRuleRequest → Str) (db : RuleDb) (req again : CreateRuleRequest) (now later : ℕ)
    → Valid req.tenant_id req.resource req.limit
    → Valid again.tenant_id again.resource again.limit
    → is_empty req.idempotency_key ≡ false
    → again.idempotency_key ≡ req.idempotency_key
    → recorded req.idempotency_key db ≡ none
    → lookup (rule_key req.tenant_id req.resource) db.rules ≡ none
    → create hash (create hash db (some req) now).0 (some again) later ≡ (
      (create hash db (some req) now).0,
      if str_eq (hash req) (hash again) then ok (created req now) else err (app conflict),
    )
unfolding create
create_again hash db req again now later v w keyed same fresh free =
    rw
      (
        Valid-test req.tenant_id req.resource req.limit v,
        Valid-test again.tenant_id again.resource again.limit w,
        fresh,
        free,
        same,
      )
      (rw (keyed, lookup-insert_self, lookup-insert_self))

update_cases :
    (db : RuleDb) (req : UpdateRuleRequest) (now : ℕ) (old : Rule)
    → Valid req.tenant_id req.resource req.limit
    → get db req.tenant_id req.resource ≡ ok old
    → (old.version ≡ req.expected_version
        → ((update db (some req) now).1 ≡ ok (updated req old.version now))
          × (get (update db (some req) now).0 req.tenant_id req.resource
              ≡ ok (updated req old.version now)))
      × (old.version ≢ req.expected_version → update db (some req) now ≡ (db, err (app conflict)))
unfolding update get
update_cases db req now old v h = ground (
  arith,
  Valid-test req.tenant_id req.resource req.limit v,
  eqb_ℤ_iff old.version req.expected_version,
  lookup-insert_self (rule_key req.tenant_id req.resource) (updated req old.version now) db.rules,
)

-- A valid update of a rule that is there: on the expected version it answers with the new rule,
-- which has the next version, and on another it is a conflict. Get returns the new rule
-- afterwards, or the old one.
pub update-get :
    (db : RuleDb) (req : UpdateRuleRequest) (now : ℕ) (old : Rule)
    → Valid req.tenant_id req.resource req.limit
    → get db req.tenant_id req.resource ≡ ok old
    → ((update db (some req) now).1 ≡ (
        if eqb_ℤ old.version req.expected_version
        then ok (updated req old.version now)
        else err (app conflict)))
      × (get (update db (some req) now).0 req.tenant_id req.resource
          ≡ ok
              (if eqb_ℤ old.version req.expected_version then updated req old.version now else old))
update-get db req now old v h =
    let (hit, miss) = update_cases db req now old v h in
    elim (Bool-cases (eqb_ℤ old.version req.expected_version)) [
      | inl e ↦ rw e (hit ((eqb_ℤ_iff old.version req.expected_version).0 e))
      | inr e ↦
          let same =
            miss (λ x. absurd (ground (arith, eqb_ℤ_iff old.version req.expected_version))) in
          rw (e, same) (refl, h)
    ]

next_differs : (z : ℤ) → IsInt64 z → add64 z (pos 1) ≢ z
unfolding add64
next_differs (pos n) i h = ground arith
next_differs (negsuc n) i h = ground arith

-- Of two valid updates of a rule that expect the same version at most one succeeds, also where its int64 wraps:
-- after the first has succeeded the second is a conflict and changes nothing.
pub update_twice :
    (db : RuleDb) (first later : UpdateRuleRequest) (now after : ℕ) (old : Rule)
    → Valid first.tenant_id first.resource first.limit
    → Valid later.tenant_id later.resource later.limit
    → get db first.tenant_id first.resource ≡ ok old
    → IsInt64 old.version
    → old.version ≡ first.expected_version
    → later.tenant_id ≡ first.tenant_id
    → later.resource ≡ first.resource
    → later.expected_version ≡ first.expected_version
    → update (update db (some first) now).0 (some later) after
      ≡ ((update db (some first) now).0, err (app conflict))
update_twice db first later now after old v w h range e t s x =
    let done = (update_cases db first now old v h).0 e in
    (update_cases (update db (some first) now).0 later after (updated first old.version now) w
        (rw (t, s) (done.1))).1
      (λ same. next_differs old.version range (same ∙ x ∙ sym e))
