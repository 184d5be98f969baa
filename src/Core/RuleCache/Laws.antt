-- ===== src/Core/RuleCache/Laws.antt =====
-- What Get returns after each operation.
use distributed_rate_limiter.Base.{
  ◌≡◌, refl, arith, Bool, ◌&&◌, [], ◌∷◌, if◌then◌else◌, Option, none, some, Bool-cases,
  Option-cases, inl, inr,
}
use distributed_rate_limiter.Base.Assoc.{Assoc, lookup, lookup-insert, lookup-remove}
use distributed_rate_limiter.Base.Int.{ℤ, leb_ℤ, ltb_ℤ}
use distributed_rate_limiter.Base.Str.{Str, str_eq, str_eq_iff}
use distributed_rate_limiter.Core.Models.{Rule}
use distributed_rate_limiter.Core.RuleCache.{
  RulesSnapshot, get, put, upsert_if_newer, drop, delete_if_older_or_equal, or_empty, rule_in,
  keep_tenant,
}

-- The rule is for this tenant and this resource.
abbrev pub is_for : Rule → Str → Str → Bool
is_for r t s = str_eq r.tenant_id t && str_eq r.resource s

or_empty-rule_in : (s : Str) (o : Option (Assoc Rule)) → lookup s (or_empty o) ≡ rule_in s o
unfolding lookup
or_empty-rule_in s none = refl
or_empty-rule_in s (some m) = refl

pub get-put :
    (r : Rule) (t s : Str) (c : RulesSnapshot)
    → get t s (put r c) ≡ (if is_for r t s then some r else get t s c)
unfolding get put
get-put r t s c = elim (Bool-cases (str_eq r.tenant_id t)) [
  | inr other ↦ rw (lookup-insert, other)
  | inl same ↦ rw (
    lookup-insert,
    same,
    lookup-insert,
    (str_eq_iff r.tenant_id t).0 same,
    or_empty-rule_in s (lookup t c),
  )
]

rule_in-keep_tenant :
    (t : Str) (m : Assoc Rule) (u s : Str) (c : RulesSnapshot)
    → rule_in s (lookup u (keep_tenant t m c))
      ≡ (if str_eq t u then lookup s m else rule_in s (lookup u c))
unfolding lookup
rule_in-keep_tenant t [] u s c =
    rw (lookup-remove t u c) (elim (Bool-cases (str_eq t u)) [ inl e ↦ rw e | inr e ↦ rw e ])
rule_in-keep_tenant t (e ∷ m) u s c =
    rw (lookup-insert t u (e ∷ m) c)
      (elim (Bool-cases (str_eq t u)) [ inl e ↦ rw e | inr e ↦ rw e ])

pub get-drop :
    (t s : Str) (u v : Str) (c : RulesSnapshot)
    → get u v (drop t s c) ≡ (if str_eq t u && str_eq s v then none else get u v c)
unfolding get drop
get-drop t s u v c = elim (Bool-cases (str_eq t u)) [
  | inr other ↦ rw (rule_in-keep_tenant, other)
  | inl same ↦ rw (
    rule_in-keep_tenant,
    same,
    lookup-remove,
    (str_eq_iff t u).0 same,
    or_empty-rule_in v (lookup u c),
  )
]

-- The rule that the cache keeps of an old and a new one.
abbrev pub newer : Rule → Option Rule → Rule
newer r none = r
newer r (some old) = if leb_ℤ r.version old.version then old else r

-- After UpsertIfNewer the cache holds, for the rule's tenant and resource, the one of the old and
-- the new rule with the larger version, the old one if they are equal; nothing else changes.
pub get-upsert_if_newer :
    (r : Rule) (t s : Str) (c : RulesSnapshot)
    → get t s (upsert_if_newer (some r) c)
      ≡ (if is_for r t s then some (newer r (get t s c)) else get t s c)
unfolding upsert_if_newer
get-upsert_if_newer r t s c = elim (Option-cases (get r.tenant_id r.resource c)) [
  | inl e ↦
      rw (e, upsert_if_newer)
        (ground (arith, get-put r t s c, str_eq_iff r.tenant_id t, str_eq_iff r.resource s))
  | inr (old, e) ↦
      rw (e, upsert_if_newer)
        (ground (arith, get-put r t s c, str_eq_iff r.tenant_id t, str_eq_iff r.resource s))
]

-- After DeleteIfOlderOrEqual the rule of the tenant and the resource is gone, unless its version
-- is larger than the given one; nothing else changes.
pub get-delete :
    (t s : Str) (version : ℤ) (u v : Str) (c : RulesSnapshot)
    → get u v (delete_if_older_or_equal t s version c) ≡ (
        if str_eq t u && str_eq s v
        then elim (get u v c) [
          | none ↦ none
          | some old ↦ if ltb_ℤ version old.version then some old else none
        ]
        else get u v c)
unfolding delete_if_older_or_equal
get-delete t s version u v c = elim (Option-cases (get t s c)) [
  | inl e ↦ rw (e, delete_if_older_or_equal) (ground (arith, str_eq_iff t u, str_eq_iff s v))
  | inr (old, e) ↦
      rw (e, delete_if_older_or_equal)
        (ground (arith, get-drop t s u v c, str_eq_iff t u, str_eq_iff s v))
]
