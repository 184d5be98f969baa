-- ===== src/Core/RuleCache/Convergence.antt =====
-- Updates may reach a cache in any order, and a full refresh forgets what was there before.
use distributed_rate_limiter.Base.{
  ◌≡◌, ◌≢◌, refl, arith, false, List, [], ◌∷◌, ap, ◌∙◌, if◌then◌else◌, Option, none, some,
  Bool-cases, ◌⊎◌, inl, inr,
}
use distributed_rate_limiter.Base.Assoc.{lookup, insert, lookup-insert}
use distributed_rate_limiter.Base.Int.{ℤ, ◌≤ℤ◌}
use distributed_rate_limiter.Base.Str.{Str, str_eq, str_eq_iff}
use distributed_rate_limiter.Core.Models.{Rule}
use distributed_rate_limiter.Core.RuleCache.{
  RulesSnapshot, get, put_all, put, empty_tenants, replace_all, upsert_if_newer,
}
use distributed_rate_limiter.Core.RuleCache.Laws.{is_for, get-put, get-upsert_if_newer}

-- Two updates of different versions, or of different rules, may come in either order: Get returns
-- the same afterwards.
pub upsert-commute :
    (a b : Rule) (t s : Str) (c : RulesSnapshot)
    → (a.version ≢ b.version) ⊎ (is_for a b.tenant_id b.resource ≡ false)
    → get t s (upsert_if_newer (some a) (upsert_if_newer (some b) c))
      ≡ get t s (upsert_if_newer (some b) (upsert_if_newer (some a) c))
upsert-commute a b t s c d = ground (
  arith,
  get-upsert_if_newer a t s (upsert_if_newer (some b) c),
  get-upsert_if_newer b t s (upsert_if_newer (some a) c),
  get-upsert_if_newer a t s c,
  get-upsert_if_newer b t s c,
  str_eq_iff a.tenant_id b.tenant_id,
  str_eq_iff a.resource b.resource,
  str_eq_iff a.tenant_id t,
  str_eq_iff a.resource s,
  str_eq_iff b.tenant_id t,
  str_eq_iff b.resource s,
)

unfoldable pub upsert_all : List Rule → RulesSnapshot → RulesSnapshot
upsert_all [] c = c
upsert_all (r ∷ rs) c = upsert_all rs (upsert_if_newer (some r) c)

-- The cache has a rule for the tenant and the resource of version `v` at least.
abbrev pub AtLeast : ℤ → Option Rule → Type 0
AtLeast v none = ⊥
AtLeast v (some r) = v ≤ℤ r.version

upsert-AtLeast :
    (v : ℤ) (r : Rule) (t s : Str) (c : RulesSnapshot)
    → AtLeast v (get t s c)
    → AtLeast v (get t s (upsert_if_newer (some r) c))
upsert-AtLeast v r t s c h = rw (get-upsert_if_newer r t s c) (ground arith)

upsert_self-AtLeast :
    (r : Rule) (c : RulesSnapshot)
    → AtLeast r.version (get r.tenant_id r.resource (upsert_if_newer (some r) c))
upsert_self-AtLeast r c =
    rw (get-upsert_if_newer r r.tenant_id r.resource c)
      (ground (arith, str_eq_iff r.tenant_id r.tenant_id, str_eq_iff r.resource r.resource))

-- No update takes a version back.
pub upsert_all-AtLeast :
    (rs : List Rule) (v : ℤ) (t s : Str) (c : RulesSnapshot)
    → AtLeast v (get t s c)
    → AtLeast v (get t s (upsert_all rs c))
unfolding upsert_all
upsert_all-AtLeast [] v t s c h = h
upsert_all-AtLeast (r ∷ rs) v t s c h =
    upsert_all-AtLeast rs v t s (upsert_if_newer (some r) c) (upsert-AtLeast v r t s c h)

abbrev pub Among : Rule → List Rule → Type 0
Among r [] = ⊥
Among r (x ∷ xs) = (r ≡ x) ⊎ Among r xs

-- After any sequence of updates, in any order, the cache is at least as new as each of them.
pub upsert_all-latest :
    (rs : List Rule) (r : Rule) (c : RulesSnapshot)
    → Among r rs
    → AtLeast r.version (get r.tenant_id r.resource (upsert_all rs c))
unfolding upsert_all
upsert_all-latest [] r c h = absurd h
upsert_all-latest (x ∷ rs) r c (inl e) =
    upsert_all-AtLeast rs r.version r.tenant_id r.resource (upsert_if_newer (some x) c)
      (rw (← e) (upsert_self-AtLeast r c))
upsert_all-latest (x ∷ rs) r c (inr h) = upsert_all-latest rs r (upsert_if_newer (some x) c) h

-- The last rule of a list for a tenant and a resource.
unfoldable pub last_for : Str → Str → Option Rule → List (Option Rule) → Option Rule
last_for t s found [] = found
last_for t s found (none ∷ rules) = last_for t s found rules
last_for t s found (some r ∷ rules) = last_for t s (if is_for r t s then some r else found) rules

get-empty_tenants :
    (rules : List (Option Rule)) (t s : Str) (c : RulesSnapshot)
    → ((u v : Str) → get u v c ≡ none)
    → get t s (empty_tenants rules c) ≡ none
unfolding empty_tenants
get-empty_tenants [] t s c h = h t s
get-empty_tenants (none ∷ rules) t s c h = get-empty_tenants rules t s c h
get-empty_tenants (some r ∷ rules) t s c h =
    get-empty_tenants rules t s (insert r.tenant_id [] c) (λ u v. emptied u v)
  where
    emptied : (u v : Str) → get u v (insert r.tenant_id [] c) ≡ none
    emptied u v =
        unfold get lookup in
        elim (Bool-cases (str_eq r.tenant_id u)) [
          | inl e ↦ rw (lookup-insert r.tenant_id u [] c, e)
          | inr e ↦ rw (lookup-insert r.tenant_id u [] c, e) (h u v)
        ]

get-put_all :
    (rules : List (Option Rule)) (t s : Str) (c : RulesSnapshot)
    → get t s (put_all rules c) ≡ last_for t s (get t s c) rules
unfolding put_all last_for
get-put_all [] t s c = refl
get-put_all (none ∷ rules) t s c = get-put_all rules t s c
get-put_all (some r ∷ rules) t s c =
    get-put_all rules t s (put r c) ∙ ap (λ x. last_for t s x rules) (get-put r t s c)

-- After ReplaceAll the cache holds, for each tenant and resource, the last of the given rules for
-- them and nothing else.
pub get-replace_all :
    (rules : List (Option Rule)) (t s : Str) → get t s (replace_all rules) ≡ last_for t s none rules
unfolding replace_all
get-replace_all rules t s =
    get-put_all rules t s (empty_tenants rules [])
    ∙ ap (λ x. last_for t s x rules)
        (get-empty_tenants rules t s [] (λ u v. unfold get lookup in refl))
