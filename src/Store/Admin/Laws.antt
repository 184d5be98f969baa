-- ===== src/Store/Admin/Laws.antt =====
-- The cache of the instance that serves the administrator agrees with the database.
use distributed_rate_limiter.Base.{
  ◌≡◌, arith, Bool, true, false, ◌&&◌, ap, sym, ◌∙◌, some, Bool-cases, inl, inr,
}
use distributed_rate_limiter.Base.Assoc.{lookup, insert, remove, lookup-insert, lookup-remove}
use distributed_rate_limiter.Base.Int.{ℤ, ltb_ℤ}
use distributed_rate_limiter.Base.Str.{Str, str_eq, str_eq_iff}
use distributed_rate_limiter.Core.Keys.{rule_key, limiter_pool_key}
use distributed_rate_limiter.Core.Keys.Laws.{Plain, limiter_pool_key-injective}
use distributed_rate_limiter.Core.Models.{Rule}
use distributed_rate_limiter.Core.RuleCache.{
  RulesSnapshot, get, upsert_if_newer, delete_if_older_or_equal,
}
use distributed_rate_limiter.Core.RuleCache.Laws.{is_for, newer, get-upsert_if_newer, get-delete}
use distributed_rate_limiter.Store.RuleDb.{RuleDb}

-- Each rule stands under its own key, and the cache has just the rules of the database.
pub record Inv (db : RuleDb) (c : RulesSnapshot) : Type 0 where
  pub own_key :
      (k : Str) (r : Rule)
      → lookup k db.rules ≡ some r
      → (k ≡ rule_key r.tenant_id r.resource) × Plain r.tenant_id
  pub agree : (t s : Str) → Plain t → get t s c ≡ lookup (rule_key t s) db.rules

-- The test of the cache for a rule's names.
abbrev pub same_names : Str → Str → Str → Str → Bool
same_names u v t s = str_eq u t && str_eq v s

pub same_names_eq : (u v t s : Str) → same_names u v t s ≡ true → (u ≡ t) × (v ≡ s)
same_names_eq u v t s h = ground (arith, str_eq_iff u t, str_eq_iff v s)

-- Names with the same key are the same, as long as the tenants are plain.
pub rule_key-injective :
    (u v t s : Str) → Plain u → Plain t → rule_key u v ≡ rule_key t s → (u ≡ t) × (v ≡ s)
unfolding rule_key limiter_pool_key
rule_key-injective u v t s p q e = limiter_pool_key-injective u t v s p q e

str_eq-rule_key :
    (u v t s : Str) → Plain u → Plain t → str_eq (rule_key u v) (rule_key t s) ≡ same_names u v t s
str_eq-rule_key u v t s p q = elim (Bool-cases (str_eq (rule_key u v) (rule_key t s))) [
  | inl e ↦
      let (a, b) =
        rule_key-injective u v t s p q ((str_eq_iff (rule_key u v) (rule_key t s)).0 e) in
      e ∙ sym (ground (arith, str_eq_iff u t, str_eq_iff v s, a, b))
  | inr e ↦ elim (Bool-cases (same_names u v t s)) [
    | inl f ↦
        let (a, b) = same_names_eq u v t s f in
        absurd (
          ground (
            arith,
            e,
            (str_eq_iff (rule_key u v) (rule_key t s)).1
                (ap (λ x. rule_key x v) a ∙ ap (rule_key t) b),
          ))
    | inr f ↦ e ∙ sym f
  ]
]

-- A rule written to both, at least as new as the one that the cache has.
pub write-Inv :
    (db after : RuleDb) (c : RulesSnapshot) (r : Rule)
    → Inv db c
    → Plain r.tenant_id
    → newer r (get r.tenant_id r.resource c) ≡ r
    → after.rules ≡ insert (rule_key r.tenant_id r.resource) r db.rules
    → Inv after (upsert_if_newer (some r) c)
write-Inv db after c r v p n e = record {
  own_key = λ k x h.
      let found =
        sym (lookup-insert (rule_key r.tenant_id r.resource) k r db.rules)
        ∙ ap (lookup k) (sym e)
        ∙ h in
      elim (Bool-cases (str_eq (rule_key r.tenant_id r.resource) k)) [
        | inl same ↦
            let it : r ≡ x = ground (arith, found, same) in
            rw (← it) (sym ((str_eq_iff (rule_key r.tenant_id r.resource) k).0 same), p)
        | inr other ↦ v.own_key k x (ground (arith, found, other))
      ];
  agree = λ t s q.
      get-upsert_if_newer r t s c
      ∙ elim (Bool-cases (is_for r t s)) [
        | inl f ↦
            let (a, b) = same_names_eq r.tenant_id r.resource t s f in
            let kept : newer r (get t s c) ≡ r = rw (← a, ← b) n in
            ground (arith, f, str_eq-rule_key r.tenant_id r.resource t s p q, kept)
        | inr f ↦ ground (arith, f, str_eq-rule_key r.tenant_id r.resource t s p q, v.agree t s q)
      ]
      ∙ sym (lookup-insert (rule_key r.tenant_id r.resource) (rule_key t s) r db.rules)
      ∙ ap (lookup (rule_key t s)) (sym e);
}

-- A rule taken from both, at the version that the database has.
pub forget-Inv :
    (db after : RuleDb) (c : RulesSnapshot) (u w : Str) (version : ℤ) (old : Rule)
    → Inv db c
    → Plain u
    → lookup (rule_key u w) db.rules ≡ some old
    → old.version ≡ version
    → after.rules ≡ remove (rule_key u w) db.rules
    → Inv after (delete_if_older_or_equal u w version c)
forget-Inv db after c u w version old v p h n e = record {
  own_key = λ k x g.
      v.own_key k x
        (ground (arith, sym (lookup-remove (rule_key u w) k db.rules) ∙ ap (lookup k) (sym e) ∙ g));
  agree = λ t s q.
      get-delete u w version t s c
      ∙ elim (Bool-cases (same_names u w t s)) [
        | inl f ↦
            let (a, b) = same_names_eq u w t s f in
            let there : get t s c ≡ some old = v.agree t s q ∙ rw (← a, ← b) h in
            let older : ltb_ℤ version old.version ≡ false = ground (arith, n) in
            rw there (ground (arith, f, str_eq-rule_key u w t s p q, older))
        | inr f ↦ ground (arith, f, str_eq-rule_key u w t s p q, v.agree t s q)
      ]
      ∙ sym (lookup-remove (rule_key u w) (rule_key t s) db.rules)
      ∙ ap (lookup (rule_key t s)) (sym e);
}
