-- ===== src/Core/Handler/Lent.antt =====
-- An acquisition of the pool lends a handle that has a limiter, which its release gives back.
use distributed_rate_limiter.Base.{
  ℕ, ◌≡◌, refl, arith, true, ◌==◌, some, get_elem?, Bool-cases, Option-cases, inl, inr, ap,
}
use distributed_rate_limiter.Base.Str.{Str}
use distributed_rate_limiter.Core.Keys.{limiter_pool_key}
use distributed_rate_limiter.Core.Limiter.{RedisLimiter}
use distributed_rate_limiter.Core.Models.{Result, ok, err}
use distributed_rate_limiter.Core.Pool.{LimiterPoolShard, release, handle_on}
use distributed_rate_limiter.Core.Pool.Counts.{pins}
use distributed_rate_limiter.Core.Pool.Sharded.{
  LimiterPool, acquire_limiter, release_handle, index_for, put_shard,
}
use distributed_rate_limiter.Core.RuleCache.{RulesSnapshot}
use distributed_rate_limiter.Core.RuleCache
use distributed_rate_limiter.Core.Handler.{limiter_at}
use distributed_rate_limiter.Core.Handler.Pinned.{
  has_entry, Acquired, acquire-Acquired, get_elem?-last, pins-release,
}

-- What the pool is after an acquisition: all shards as before but one, which has a new handle with a
-- limiter, or none changed.
abbrev pub Lent : LimiterPool → LimiterPool × Result (ℕ × ℕ) → Type 0
Lent pool (after, err e) =
    (i q : ℕ) → pins q (after.shard i).handles ≡ pins q (pool.shard i).handles
Lent pool (after, ok h) =
    ((lim : RedisLimiter) × (limiter_at h after ≡ some lim))
    × ((i q : ℕ)
        → pins q ((release_handle h after).shard i).handles ≡ pins q (pool.shard i).handles)

put-pins :
    (i j q : ℕ) (s : LimiterPoolShard) (pool : LimiterPool)
    → pins q s.handles ≡ pins q (pool.shard i).handles
    → pins q ((put_shard i s pool).shard j).handles ≡ pins q (pool.shard j).handles
put-pins i j q s pool h = elim (Bool-cases (i == j)) [
  | inl e ↦ ground (arith, e, h)
  | inr e ↦ ground (arith, e, h)
]

entry-limiter :
    (i h p : ℕ) (pool : LimiterPool)
    → get_elem? (pool.shard i).handles h ≡ some (handle_on p)
    → has_entry ((pool.shard i).cell p) ≡ true
    → (lim : RedisLimiter) × (limiter_at (i, h) pool ≡ some lim)
unfolding limiter_at
entry-limiter i h p pool at there = elim (Option-cases ((pool.shard i).cell p)) [
  | inl e ↦ ground (arith, there, e)
  | inr (f, e) ↦ (f.lim, rw (at, limiter_at) (rw (e, limiter_at) refl))
]

given_back :
    (i h : ℕ) (t : LimiterPoolShard) (pool : LimiterPool) (j q : ℕ)
    → pins q (release h t).handles ≡ pins q (pool.shard i).handles
    → pins q ((release_handle (i, h) (put_shard i t pool)).shard j).handles
      ≡ pins q (pool.shard j).handles
unfolding release_handle
given_back i h t pool j q back = ground (arith, back)

Lent-shard :
    (i : ℕ) (pool : LimiterPool) (a : LimiterPoolShard × Result ℕ)
    → Acquired (pool.shard i) a
    → Lent pool (put_shard i a.0 pool, elim a.1 [ err e ↦ err e | ok h ↦ ok (i, h) ])
Lent-shard i pool (t, err e) same = λ j q. put-pins i j q t pool (ap (λ s. pins q s.handles) same)
Lent-shard i pool (t, ok h) (p, at, same, there) =
    let self : (i == i) ≡ true = ground arith in
    let found : get_elem? ((put_shard i t pool).shard i).handles h ≡ some (handle_on p) =
      rw (self, same, at) (get_elem?-last (pool.shard i).handles (handle_on p)) in
    let here : has_entry (((put_shard i t pool).shard i).cell p) ≡ true = rw (self) there in
    let back : (q : ℕ) → pins q (release h t).handles ≡ pins q (pool.shard i).handles =
      λ q. rw (at) (pins-release p q (pool.shard i).handles t same) in
    (entry-limiter i h p (put_shard i t pool) found here, λ j q. given_back i h t pool j q (back q))

pub acquire_limiter-Lent :
    (rules : RulesSnapshot) (tenant_id resource : Str) (pool : LimiterPool)
    → Lent pool (acquire_limiter rules tenant_id resource pool)
unfolding acquire_limiter
acquire_limiter-Lent rules tenant_id resource pool =
    elim (Option-cases (RuleCache.get tenant_id resource rules)) [
      | inl e ↦ rw (e, acquire_limiter) (λ i q. refl)
      | inr (rule, e) ↦
          rw (e, acquire_limiter)
            (Lent-shard (index_for tenant_id resource pool) pool _ (
              acquire-Acquired (limiter_pool_key tenant_id resource) _
                (pool.shard (index_for tenant_id resource pool))))
    ]
