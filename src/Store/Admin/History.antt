-- ===== src/Store/Admin/History.antt =====
-- Any sequence of the administrator's requests to one instance.
use distributed_rate_limiter.Base.{ℕ, ◌≡◌, refl, arith, Option, none, some, List, [], ◌∷◌, ◌∙◌, ap}
use distributed_rate_limiter.Base.Assoc.{lookup}
use distributed_rate_limiter.Base.Int.{ℤ}
use distributed_rate_limiter.Base.Str.{Str}
use distributed_rate_limiter.Core.Keys.{rule_key}
use distributed_rate_limiter.Core.Keys.Laws.{Plain}
use distributed_rate_limiter.Core.Models.{
  Rule, CreateRuleRequest, UpdateRuleRequest, Result, ok, err, Error,
}
use distributed_rate_limiter.Core.RuleCache.{RulesSnapshot, get}
use distributed_rate_limiter.Store.RuleDb.{new_rule_db, create, update, delete}
use distributed_rate_limiter.Store.Outbox.{Outbox}
use distributed_rate_limiter.Store.Admin.{
  InvalidationEvent, AdminHandler, emit_invalidation, upsert, forget, after_write, after_delete,
  create_rule, update_rule, delete_rule,
}
use distributed_rate_limiter.Store.Admin.Laws.{Inv}
use distributed_rate_limiter.Store.Admin.Coherence.{
  seen, gone, Counts, create-Inv, update-Inv, delete-Inv,
}

-- A request, with the instants that its handling reads.
pub data Request : Type 0 where
  creates : CreateRuleRequest → ℕ → ℕ → Request
  updates : UpdateRuleRequest → ℕ → ℕ → Request
  deletes : Str → Str → ℤ → ℕ → Request

-- The names hold no separator, and an expected version can be counted up.
abbrev pub Proper : Request → Type 0
Proper (creates req now later) = Plain req.tenant_id
Proper (updates req now later) = Plain req.tenant_id × Counts req.expected_version
Proper (deletes t s version now) = Plain t

abbrev pub AllProper : List Request → Type 0
AllProper [] = Unit {0}
AllProper (q ∷ qs) = Proper q × AllProper qs

module _ (Data : Type 0) (hash : CreateRuleRequest → Str)
    (marshal : InvalidationEvent → Result Data) where
  unfoldable pub handle : AdminHandler Data → Request → AdminHandler Data
  handle h (creates req now later) = (create_rule Data hash marshal h (some req) now later).0
  handle h (updates req now later) = (update_rule Data hash marshal h (some req) now later).0
  handle h (deletes t s version now) = (delete_rule Data hash marshal h t s version now).0

  unfoldable pub handle_all : AdminHandler Data → List Request → AdminHandler Data
  handle_all h [] = h
  handle_all h (q ∷ qs) = handle_all (handle h q) qs

  emit_keeps :
      (h : AdminHandler Data) (event : InvalidationEvent)
      → ((emit_invalidation Data hash marshal h event).0.db ≡ h.db)
        × ((emit_invalidation Data hash marshal h event).0.rules ≡ h.rules)
  unfolding emit_invalidation
  emit_keeps h event = ground arith

  -- What each request does to the two stores.
  after_write_lem :
      (h : AdminHandler Data) (c : RulesSnapshot) (answer : Result Rule) (now : ℕ)
      → h.rules ≡ some c
      → ((after_write Data hash marshal h answer now).0.db ≡ h.db)
        × ((after_write Data hash marshal h answer now).0.rules ≡ some (seen answer c))
  unfolding after_write
  after_write_lem h c (err e) now k = (refl, k)
  after_write_lem h c (ok r) now k =
      let (a, b) = emit_keeps (record h { rules = upsert Data hash marshal r h.rules }) _ in
      (a, b ∙ ap (upsert Data hash marshal r) k)

  after_delete_lem :
      (h : AdminHandler Data) (c : RulesSnapshot) (t s : Str) (version : ℤ) (now : ℕ)
      (failed : Option Error)
      → h.rules ≡ some c
      → ((after_delete Data hash marshal h t s version now failed).0.db ≡ h.db)
        × ((after_delete Data hash marshal h t s version now failed).0.rules
            ≡ some (gone failed t s version c))
  unfolding after_delete
  after_delete_lem h c t s version now (some e) k = (refl, k)
  after_delete_lem h c t s version now none k =
      let (a, b) =
        emit_keeps (record h { rules = forget Data hash marshal t s version h.rules }) _ in
      (a, b ∙ ap (forget Data hash marshal t s version) k)

  -- The handler's cache is there and agrees with its database.
  record Coherent (h : AdminHandler Data) : Type 0 where
    snapshot : RulesSnapshot
    cached : h.rules ≡ some snapshot
    agrees : Inv h.db snapshot

  handle-Coherent :
      (h : AdminHandler Data) (q : Request) → Proper q → Coherent h → Coherent (handle h q)
  unfolding handle create_rule update_rule delete_rule
  handle-Coherent h (creates req now later) p v =
      let r = create hash h.db (some req) now in
      let (a, b) = after_write_lem (record h { db = r.0 }) v.snapshot r.1 later v.cached in
      record {
        snapshot = seen r.1 v.snapshot;
        cached = b;
        agrees = rw a (create-Inv hash h.db v.snapshot req now v.agrees p);
      }
  handle-Coherent h (updates req now later) p v =
      let r = update h.db (some req) now in
      let (a, b) = after_write_lem (record h { db = r.0 }) v.snapshot r.1 later v.cached in
      record {
        snapshot = seen r.1 v.snapshot;
        cached = b;
        agrees = rw a (update-Inv h.db v.snapshot req now v.agrees p.0 p.1);
      }
  handle-Coherent h (deletes t s version now) p v =
      let r = delete h.db t s version in
      let (a, b) =
        after_delete_lem (record h { db = r.0 }) v.snapshot t s version now r.1 v.cached in
      record {
        snapshot = gone r.1 t s version v.snapshot;
        cached = b;
        agrees = rw a (delete-Inv h.db v.snapshot t s version v.agrees p);
      }

  handle_all-Coherent :
      (h : AdminHandler Data) (qs : List Request)
      → AllProper qs
      → Coherent h
      → Coherent (handle_all h qs)
  unfolding handle_all
  handle_all-Coherent h [] p v = v
  handle_all-Coherent h (q ∷ qs) p v =
      handle_all-Coherent (handle h q) qs p.1 (handle-Coherent h q p.0 v)

  -- From an empty database and an empty cache, after any creations, updates and deletions by one
  -- handler, whether they succeed or not and whether their events reach the outbox: for every
  -- tenant whose name holds no separator, the cache has just the rules that the database has. The
  -- tenants of the requests must be such, and the expected versions of updates must be between
  -- zero and the largest int64, below it.
  pub handle_all-agree :
      (outbox : Option (Outbox Data)) (qs : List Request) (t s : Str)
      → AllProper qs
      → Plain t
      → (c : RulesSnapshot) × ((handle_all
            (record { db = new_rule_db; rules = some []; outbox = outbox })
            qs).rules
          ≡ some c)
        × (get t s c
            ≡ lookup
                (rule_key t s)
                (handle_all
                  (record { db = new_rule_db; rules = some []; outbox = outbox })
                  qs).db.rules)
  unfolding new_rule_db lookup get
  handle_all-agree outbox qs t s p q =
      let v =
        handle_all-Coherent (record { db = new_rule_db; rules = some []; outbox = outbox }) qs p
          (record {
            snapshot = [];
            cached = refl;
            agrees = record { own_key = λ k r h. ground arith; agree = λ t' s' q'. refl };
          }) in
      (v.snapshot, v.cached, v.agrees.agree t s q)
