-- ===== src/Core/Batch.antt =====
-- batchplanner.go: the requests of a batch, grouped by limiter. The pools of slices have no effect
-- on the contents: a slice that Get returns is empty.
pub mod Laws
mod Examples
use distributed_rate_limiter.Base.{
  ℕ, zero, suc, ◌+◌, Option, none, some, List, [], ◌∷◌, ◌++◌, length,
}
use distributed_rate_limiter.Base.Int.{ℤ}
use distributed_rate_limiter.Base.Str.{Str}
use distributed_rate_limiter.Base.Assoc.{Assoc, lookup, insert}
use distributed_rate_limiter.Core.Keys.{limiter_pool_key}
use distributed_rate_limiter.Core.Models.{CheckLimitRequest}

-- A key that is not built yet (nil) is `none`.
pub record BatchGroup : Type 0 where
  pub tenant_id : Str
  pub resource : Str
  pub indexes : List ℕ
  pub keys : List (Option Str)
  pub costs : List ℤ

-- The groups so far, and groupIndex.
pub record Planning : Type 0 where
  pub groups : List BatchGroup
  pub group_index : Assoc ℕ

-- The three appends to a group.
abbrev pub extend : ℕ → ℤ → BatchGroup → BatchGroup
extend i cost g = record g {
  indexes = g.indexes ++ i ∷ [];
  keys = g.keys ++ none ∷ [];
  costs = g.costs ++ cost ∷ [];
}

-- plan.Groups[idx], changed in place.
unfoldable pub extend_at : ℕ → ℕ → ℤ → List BatchGroup → List BatchGroup
extend_at idx i cost [] = []
extend_at zero i cost (g ∷ gs) = extend i cost g ∷ gs
extend_at (suc idx) i cost (g ∷ gs) = g ∷ extend_at idx i cost gs

abbrev pub empty_group : CheckLimitRequest → BatchGroup
empty_group r = record {
  tenant_id = r.tenant_id;
  resource = r.resource;
  indexes = [];
  keys = [];
  costs = [];
}

abbrev pub key_of : CheckLimitRequest → Str
key_of r = limiter_pool_key r.tenant_id r.resource

-- The group of the request, made if there is none.
abbrev pub place : ℕ → CheckLimitRequest → Planning → Option ℕ → Planning
place i r p (some idx) = record p { groups = extend_at idx i r.cost p.groups }
place i r p none = record {
  groups = extend_at (length p.groups) i r.cost (p.groups ++ empty_group r ∷ []);
  group_index = insert (key_of r) (length p.groups) p.group_index;
}

unfoldable pub plan_from : ℕ → List (Option CheckLimitRequest) → Planning → Planning
plan_from i [] p = p
plan_from i (none ∷ rs) p = plan_from (suc i) rs p
plan_from i (some r ∷ rs) p = plan_from (suc i) rs (place i r p (lookup (key_of r) p.group_index))

-- BatchPlanner.Plan
unfoldable pub plan : List (Option CheckLimitRequest) → List BatchGroup
unfolding plan_from
plan rs = (plan_from 0 rs (record { groups = []; group_index = [] })).groups
