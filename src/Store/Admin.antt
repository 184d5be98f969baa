-- ===== src/Store/Admin.antt =====
-- core/admin_handler.go over the in-memory rule database, cache and outbox, with InvalidationEvent
-- of core/serialization.go. Its encoding (encoding/json) and the hash of a request are parameters.
pub mod Laws
pub mod Coherence
pub mod History
mod Examples
use distributed_rate_limiter.Base.{ℕ, Option, none, some, List}
use distributed_rate_limiter.Base.Int.{ℤ}
use distributed_rate_limiter.Base.Str.{Str}
use distributed_rate_limiter.Core.Models.{
  Rule, CreateRuleRequest, UpdateRuleRequest, Result, ok, err, Error, plain,
}
use distributed_rate_limiter.Core.RuleCache.{
  RulesSnapshot, upsert_if_newer, delete_if_older_or_equal,
}
use distributed_rate_limiter.Store.Outbox.{Outbox, insert}
use distributed_rate_limiter.Store.RuleDb.{RuleDb, create, update, delete, get, list}

pub data EventAction : Type 0 where
  action_upsert action_delete : EventAction

pub record InvalidationEvent : Type 0 where
  pub tenant_id : Str
  pub resource : Str
  pub action : EventAction
  pub version : ℤ
  pub timestamp : ℕ

-- A cache or an outbox writer that is not configured is `none`.
pub record AdminHandler (Data : Type 0) : Type 0 where
  pub db : RuleDb
  pub rules : Option RulesSnapshot
  pub outbox : Option (Outbox Data)

abbrev or_failed : Rule → Option Error → Result Rule
or_failed r none = ok r
or_failed r (some e) = err e

module _ (Data : Type 0) (hash : CreateRuleRequest → Str)
    (marshal : InvalidationEvent → Result Data) where
  abbrev append : AdminHandler Data → Outbox Data → Result Data → AdminHandler Data × Option Error
  append h o (err e) = (h, some e)
  append h o (ok payload) = (record h { outbox = some (insert Data payload o).0 }, none)

  unfoldable pub emit_invalidation :
      AdminHandler Data → InvalidationEvent → AdminHandler Data × Option Error
  emit_invalidation h event = elim h.outbox [
    | none ↦ (h, some (plain "outbox writer is not configured"))
    | some o ↦ append h o (marshal event)
  ]

  abbrev pub upsert : Rule → Option RulesSnapshot → Option RulesSnapshot
  upsert r none = none
  upsert r (some c) = some (upsert_if_newer (some r) c)

  -- What CreateRule and UpdateRule do with the answer of the database.
  unfoldable pub after_write : AdminHandler Data → Result Rule → ℕ → AdminHandler Data × Result Rule
  unfolding emit_invalidation
  after_write h (err e) now = (h, err e)
  after_write h (ok r) now =
      let event : InvalidationEvent = record {
        tenant_id = r.tenant_id;
        resource = r.resource;
        action = action_upsert;
        version = r.version;
        timestamp = now;
      } in
      let (h', failed) = emit_invalidation (record h { rules = upsert r h.rules }) event in
      (h', or_failed r failed)

  unfoldable pub create_rule :
      AdminHandler Data → Option CreateRuleRequest → ℕ → ℕ → AdminHandler Data × Result Rule
  unfolding after_write
  create_rule h req now later =
      let (db, answer) = create hash h.db req now in after_write (record h { db = db }) answer later

  unfoldable pub update_rule :
      AdminHandler Data → Option UpdateRuleRequest → ℕ → ℕ → AdminHandler Data × Result Rule
  unfolding after_write
  update_rule h req now later =
      let (db, answer) = update h.db req now in after_write (record h { db = db }) answer later

  abbrev pub forget : Str → Str → ℤ → Option RulesSnapshot → Option RulesSnapshot
  forget tenant_id resource version none = none
  forget tenant_id resource version (some c) =
      some (delete_if_older_or_equal tenant_id resource version c)

  unfoldable pub after_delete :
      AdminHandler Data → Str → Str → ℤ → ℕ → Option Error → AdminHandler Data × Option Error
  unfolding emit_invalidation
  after_delete h tenant_id resource version now (some e) = (h, some e)
  after_delete h tenant_id resource version now none =
      emit_invalidation (record h { rules = forget tenant_id resource version h.rules })
        (record {
          tenant_id = tenant_id;
          resource = resource;
          action = action_delete;
          version = version;
          timestamp = now;
        })

  unfoldable pub delete_rule :
      AdminHandler Data → Str → Str → ℤ → ℕ → AdminHandler Data × Option Error
  unfolding after_delete
  delete_rule h tenant_id resource expected_version now =
      let (db, failed) = delete h.db tenant_id resource expected_version in
      after_delete (record h { db = db }) tenant_id resource expected_version now failed

  -- GetRule and ListRules
  unfoldable pub get_rule : AdminHandler Data → Str → Str → Result Rule
  get_rule h tenant_id resource = get h.db tenant_id resource

  unfoldable pub list_rules : AdminHandler Data → Str → Result (List Rule)
  list_rules h tenant_id = list h.db tenant_id
