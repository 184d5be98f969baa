-- ===== src/Store/Admin/Coherence.antt =====
-- The administrator's requests keep cache and database in agreement.
use distributed_rate_limiter.Base.{
  ℕ, ◌<◌, ◌≡◌, refl, arith, false, ◌||◌, ap, sym, ◌∙◌, Option, none, some, Bool-cases, Option-cases,
  inl, inr,
}
use distributed_rate_limiter.Base.Assoc.{lookup}
use distributed_rate_limiter.Base.Int.{
  ℤ, pos, pos_part, leb_ℤ, eqb_ℤ, eqb_ℤ_iff, ◌≤ℤ◌, add64, add64_nonneg, max_int64,
}
use distributed_rate_limiter.Base.Str.{Str, str_eq, is_empty}
use distributed_rate_limiter.Core.Keys.{rule_key}
use distributed_rate_limiter.Core.Keys.Laws.{Plain}
use distributed_rate_limiter.Core.Models.{
  Rule, CreateRuleRequest, UpdateRuleRequest, Result, ok, err, Error,
}
use distributed_rate_limiter.Core.RuleCache.{
  RulesSnapshot, get, upsert_if_newer, delete_if_older_or_equal,
}
use distributed_rate_limiter.Core.RuleCache.Laws.{is_for, newer, get-upsert_if_newer}
use distributed_rate_limiter.Store.RuleDb.{
  RuleDb, create, update, delete, created, updated, recorded,
}
use distributed_rate_limiter.Store.Admin.Laws.{Inv, write-Inv, forget-Inv, same_names_eq}

-- The cache after an answer of the database.
abbrev pub seen : Result Rule → RulesSnapshot → RulesSnapshot
seen (ok r) c = upsert_if_newer (some r) c
seen (err e) c = c

-- A rule that the database has does not change the cache.
replayed-Inv :
    (db : RuleDb) (c : RulesSnapshot) (k : Str) (r : Rule)
    → Inv db c
    → lookup k db.rules ≡ some r
    → Inv db (upsert_if_newer (some r) c)
replayed-Inv db c k r v h =
    let (keyed, plain) = v.own_key k r h in
    let cached : get r.tenant_id r.resource c ≡ some r =
      v.agree r.tenant_id r.resource plain ∙ ap (λ x. lookup x db.rules) (sym keyed) ∙ h in
    record {
      own_key = v.own_key;
      agree = λ t s q. get-upsert_if_newer r t s c ∙ elim (Bool-cases (is_for r t s)) [
        | inl f ↦
            let (a, b) = same_names_eq r.tenant_id r.resource t s f in
            let there : get t s c ≡ some r = rw (← a, ← b) cached in
            let new : newer r (get t s c) ≡ r = rw there (ground arith) in
            ground (arith, f, new, there, v.agree t s q)
        | inr f ↦ ground (arith, f, v.agree t s q)
      ];
    }

pub create-Inv :
    (hash : CreateRuleRequest → Str) (db : RuleDb) (c : RulesSnapshot) (req : CreateRuleRequest)
    (now : ℕ)
    → Inv db c
    → Plain req.tenant_id
    → Inv (create hash db (some req) now).0 (seen (create hash db (some req) now).1 c)
unfolding create
create-Inv hash db c req now v p =
    elim (Bool-cases
      ((is_empty req.tenant_id || is_empty req.resource) || leb_ℤ req.limit (pos 0))) [
        | inl g ↦ rw (g, create) v
        | inr g ↦ elim (Option-cases (recorded req.idempotency_key db)) [
          | inr (known, e) ↦ elim (Bool-cases (str_eq known.payload_hash (hash req))) [
            | inr x ↦ rw (g, e, x, create) v
            | inl x ↦ elim (Option-cases (lookup known.rule_key db.rules)) [
              | inl o ↦ rw (g, e, x, o, create) v
              | inr (r, o) ↦ rw (g, e, x, o, create) (replayed-Inv db c known.rule_key r v o)
            ]
          ]
          | inl e ↦ elim (Option-cases (lookup (rule_key req.tenant_id req.resource) db.rules)) [
            | inr (r, o) ↦ rw (g, e, o, create) v
            | inl o ↦
                let free : get req.tenant_id req.resource c ≡ none =
                  v.agree req.tenant_id req.resource p ∙ o in
                rw (g, e, o, create)
                  (write-Inv db _ c (created req now) v p (ap (newer (created req now)) free) refl)
          ]
        ]
      ]

-- An expected version that can be counted up.
abbrev pub Counts : ℤ → Type 0
Counts z = (pos 0 ≤ℤ z) × (pos_part z < max_int64)

pub update-Inv :
    (db : RuleDb) (c : RulesSnapshot) (req : UpdateRuleRequest) (now : ℕ)
    → Inv db c
    → Plain req.tenant_id
    → Counts req.expected_version
    → Inv (update db (some req) now).0 (seen (update db (some req) now).1 c)
unfolding update
update-Inv db c req now v p m =
    elim (Bool-cases
      ((is_empty req.tenant_id || is_empty req.resource) || leb_ℤ req.limit (pos 0))) [
        | inl g ↦ rw (g, update) v
        | inr g ↦ elim (Option-cases (lookup (rule_key req.tenant_id req.resource) db.rules)) [
          | inl o ↦ rw (g, o, update) v
          | inr (old, o) ↦ elim (Bool-cases (eqb_ℤ old.version req.expected_version)) [
            | inr x ↦ rw (g, o, x, update) v
            | inl x ↦
                let same = (eqb_ℤ_iff old.version req.expected_version).0 x in
                let there : get req.tenant_id req.resource c ≡ some old =
                  v.agree req.tenant_id req.resource p ∙ o in
                let r = updated req old.version now in
                let higher : leb_ℤ (add64 old.version (pos 1)) old.version ≡ false =
                  ground (arith, add64_nonneg old.version (pos 1), same, m.0, m.1) in
                let new : newer r (get req.tenant_id req.resource c) ≡ r =
                  rw there (rw higher refl) in
                rw (g, o, x, update) (write-Inv db _ c r v p new refl)
          ]
        ]
      ]

-- The cache after the answer to a Delete.
abbrev pub gone : Option Error → Str → Str → ℤ → RulesSnapshot → RulesSnapshot
gone none t s version c = delete_if_older_or_equal t s version c
gone (some e) t s version c = c

pub delete-Inv :
    (db : RuleDb) (c : RulesSnapshot) (t s : Str) (version : ℤ)
    → Inv db c
    → Plain t
    → Inv (delete db t s version).0 (gone (delete db t s version).1 t s version c)
unfolding delete
delete-Inv db c t s version v p = elim (Bool-cases (is_empty t || is_empty s)) [
  | inl g ↦ rw (g, delete) v
  | inr g ↦ elim (Option-cases (lookup (rule_key t s) db.rules)) [
    | inl o ↦ rw (g, o, delete) v
    | inr (old, o) ↦ elim (Bool-cases (eqb_ℤ old.version version)) [
      | inr x ↦ rw (g, o, x, delete) v
      | inl x ↦
          rw (g, o, x, delete)
            (forget-Inv db _ c t s version old v p o ((eqb_ℤ_iff old.version version).0 x) refl)
    ]
  ]
]
