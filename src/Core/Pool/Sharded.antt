-- ===== src/Core/Pool/Sharded.antt =====
-- limiterpool.go: the pool as its shards, and the rule that an acquisition starts from.
use distributed_rate_limiter.Base.{ℕ, ◌%◌, ◌==◌, leb, if◌then◌else◌, none, some, [], ◌∷◌, ◌++◌}
use distributed_rate_limiter.Base.Int.{ℤ, pos, pos_part, leb_ℤ}
use distributed_rate_limiter.Base.Str.{Str}
use distributed_rate_limiter.Base.Fnv.{fnv32a}
use distributed_rate_limiter.Core.Clock.{milliseconds}
use distributed_rate_limiter.Core.Keys.{limiter_pool_key}
use distributed_rate_limiter.Core.Limiter.{RedisLimiter}
use distributed_rate_limiter.Core.Limiter.Factory.{LimiterFactory, create}
use distributed_rate_limiter.Core.Lru.{new_lru_keys}
use distributed_rate_limiter.Core.Models.{RuleParams, Result, ok, err, plain}
use distributed_rate_limiter.Core.Pool.{LimiterPoolShard, acquire, release, cutover}
use distributed_rate_limiter.Core.RuleCache.{RulesSnapshot}
use distributed_rate_limiter.Core.RuleCache

pub record LimiterPolicy : Type 0 where
  pub shards : ℤ
  pub max_entries_shard : ℤ
  pub quiesce_window : ℤ
  pub close_timeout : ℤ

abbrev or_default : ℤ → ℤ → ℤ
or_default x d = if leb_ℤ x (pos 0) then d else x

unfoldable pub normal_policy : LimiterPolicy → LimiterPolicy
normal_policy p = record {
  shards = or_default p.shards (pos 16);
  max_entries_shard = or_default p.max_entries_shard (pos 1024);
  quiesce_window = or_default p.quiesce_window (milliseconds 50);
  close_timeout = or_default p.close_timeout (milliseconds 2000);
}

-- The shards by their index; those from `shards` of the policy on are never used.
pub record LimiterPool : Type 0 where
  pub shard : ℕ → LimiterPoolShard
  pub factory : LimiterFactory
  pub policy : LimiterPolicy

abbrev pub new_shard : ℤ → LimiterPoolShard
new_shard max = record {
  m = [];
  lru = new_lru_keys max;
  next = 0;
  cell = λ p. none;
  handles = [];
  waiting = [];
}

-- NewLimiterPool
unfoldable pub new_limiter_pool : LimiterFactory → LimiterPolicy → LimiterPool
unfolding normal_policy
new_limiter_pool factory policy = record {
  shard = λ i. new_shard (normal_policy policy).max_entries_shard;
  factory = factory;
  policy = normal_policy policy;
}

-- shardIndex, for a number of shards that fits 32 bits.
unfoldable pub shard_index : Str → Str → ℕ → ℕ
shard_index tenant_id resource total =
    if leb total 1 then 0 else fnv32a (tenant_id ++ 0 ∷ resource) % total

abbrev pub index_for : Str → Str → LimiterPool → ℕ
index_for tenant_id resource pool = shard_index tenant_id resource (pos_part pool.policy.shards)

abbrev pub put_shard : ℕ → LimiterPoolShard → LimiterPool → LimiterPool
put_shard i s pool = record pool { shard = λ j. if i == j then s else pool.shard j }

abbrev limiter_of : Result (RedisLimiter × RuleParams) → Result RedisLimiter
limiter_of (ok (lim, params)) = ok lim
limiter_of (err e) = err e

-- Acquire: the rule of the cache, and a handle in the shard that the names belong to.
unfoldable pub acquire_limiter :
    RulesSnapshot → Str → Str → LimiterPool → LimiterPool × Result (ℕ × ℕ)
acquire_limiter rules tenant_id resource pool = elim (RuleCache.get tenant_id resource rules) [
  | none ↦ (pool, err (plain "rule not found"))
  | some rule ↦
      let i = index_for tenant_id resource pool in
      let (s, answer) =
        acquire (limiter_pool_key tenant_id resource) (limiter_of (create pool.factory (some rule)))
          (pool.shard i) in
      (put_shard i s pool, elim answer [ err e ↦ err e | ok h ↦ ok (i, h) ])
]

unfoldable pub release_handle : ℕ × ℕ → LimiterPool → LimiterPool
release_handle (i, h) pool = put_shard i (release h (pool.shard i)) pool

unfoldable pub cutover_limiter : Str → Str → LimiterPool → LimiterPool
cutover_limiter tenant_id resource pool =
    let i = index_for tenant_id resource pool in
    put_shard i (cutover (limiter_pool_key tenant_id resource) (pool.shard i)) pool
