-- ===== src/Core/RuleCache.antt =====
-- rulecache.go: snapshots of the rules, by tenant and by resource. A snapshot is replaced as a
-- whole, under a lock, so that each method is one step.
pub mod Laws
pub mod Convergence
mod Examples
use distributed_rate_limiter.Base.{
  Bool, true, false, Option, none, some, List, [], ◌∷◌, map, if◌then◌else◌,
}
use distributed_rate_limiter.Base.Assoc.{Assoc, lookup, insert, remove}
use distributed_rate_limiter.Base.Int.{ℤ, leb_ℤ, ltb_ℤ}
use distributed_rate_limiter.Base.Str.{Str}
use distributed_rate_limiter.Core.Models.{Rule}

-- GlobalRulesSnapshot, with a TenantRulesSnapshot for each tenant.
abbrev pub RulesSnapshot : Type 0
RulesSnapshot = Assoc (Assoc Rule)

unfoldable pub new_rule_cache : RulesSnapshot
new_rule_cache = []

abbrev rule_in : Str → Option (Assoc Rule) → Option Rule
rule_in resource none = none
rule_in resource (some by_resource) = lookup resource by_resource

-- Get
unfoldable pub get : Str → Str → RulesSnapshot → Option Rule
get tenant_id resource snapshot = rule_in resource (lookup tenant_id snapshot)

abbrev values : Assoc Rule → List Rule
values [] = []
values ((k, r) ∷ m) = r ∷ values m

abbrev values_of : Option (Assoc Rule) → List Rule
values_of none = []
values_of (some m) = values m

-- List; the order of a Go map is not specified, and is that of the association list here.
unfoldable pub list : Str → RulesSnapshot → List Rule
list tenant_id snapshot = values_of (lookup tenant_id snapshot)

-- The first loops of ReplaceAll: an empty map for each tenant that occurs.
unfoldable pub empty_tenants : List (Option Rule) → RulesSnapshot → RulesSnapshot
empty_tenants [] by_tenant = by_tenant
empty_tenants (none ∷ rules) by_tenant = empty_tenants rules by_tenant
empty_tenants (some r ∷ rules) by_tenant = empty_tenants rules (insert r.tenant_id [] by_tenant)

abbrev or_empty : Option (Assoc Rule) → Assoc Rule
or_empty none = []
or_empty (some m) = m

-- The rule put into its tenant's map, which is made if there is none.
unfoldable pub put : Rule → RulesSnapshot → RulesSnapshot
put r snapshot =
    insert r.tenant_id (insert r.resource r (or_empty (lookup r.tenant_id snapshot))) snapshot

unfoldable pub put_all : List (Option Rule) → RulesSnapshot → RulesSnapshot
unfolding put
put_all [] snapshot = snapshot
put_all (none ∷ rules) snapshot = put_all rules snapshot
put_all (some r ∷ rules) snapshot = put_all rules (put r snapshot)

-- ReplaceAll
unfoldable pub replace_all : List (Option Rule) → RulesSnapshot
unfolding empty_tenants put_all
replace_all rules = put_all rules (empty_tenants rules [])

abbrev put_if_newer : Rule → Option Rule → RulesSnapshot → RulesSnapshot
put_if_newer r none snapshot = put r snapshot
put_if_newer r (some existing) snapshot =
    if leb_ℤ r.version existing.version then snapshot else put r snapshot

-- UpsertIfNewer
unfoldable pub upsert_if_newer : Option Rule → RulesSnapshot → RulesSnapshot
unfolding put
upsert_if_newer none snapshot = snapshot
upsert_if_newer (some r) snapshot = put_if_newer r (get r.tenant_id r.resource snapshot) snapshot

-- A tenant without rules is dropped.
abbrev keep_tenant : Str → Assoc Rule → RulesSnapshot → RulesSnapshot
keep_tenant tenant_id [] snapshot = remove tenant_id snapshot
keep_tenant tenant_id (e ∷ m) snapshot = insert tenant_id (e ∷ m) snapshot

unfoldable pub drop : Str → Str → RulesSnapshot → RulesSnapshot
drop tenant_id resource snapshot =
    keep_tenant tenant_id (remove resource (or_empty (lookup tenant_id snapshot))) snapshot

abbrev drop_if_older : Str → Str → ℤ → Option Rule → RulesSnapshot → RulesSnapshot
drop_if_older tenant_id resource version none snapshot = snapshot
drop_if_older tenant_id resource version (some existing) snapshot =
    if ltb_ℤ version existing.version then snapshot else drop tenant_id resource snapshot

-- DeleteIfOlderOrEqual
unfoldable pub delete_if_older_or_equal : Str → Str → ℤ → RulesSnapshot → RulesSnapshot
unfolding drop
delete_if_older_or_equal tenant_id resource version snapshot =
    drop_if_older tenant_id resource version (get tenant_id resource snapshot) snapshot
