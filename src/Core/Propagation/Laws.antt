-- ===== src/Core/Propagation/Laws.antt =====
-- After the invalidation of a rule, the next acquisition works with the cached rule.
use distributed_rate_limiter.Base.{
  ℕ, ◌+◌, ◌≡◌, refl, ap, ◌∙◌, arith, ◌⊎◌, inl, inr, true, false, ◌==◌, Option, none, some, List, [],
  ◌∷◌, ◌++◌, length, get_elem?, Bool-cases, Option-cases,
}
use distributed_rate_limiter.Base.Assoc.{insert, lookup-remove_self}
use distributed_rate_limiter.Base.Str.{Str}
use distributed_rate_limiter.Core.Keys.{limiter_pool_key}
use distributed_rate_limiter.Core.Limiter.{RedisLimiter}
use distributed_rate_limiter.Core.Limiter.Factory.{create}
use distributed_rate_limiter.Core.Lru.{add, evict_if_needed}
use distributed_rate_limiter.Core.Models.{Rule, RuleParams, Result, ok, err}
use distributed_rate_limiter.Core.Pool.{
  entry_active, LimiterEntry, LimiterPoolShard, store, entry_for, handle_on, drop_key, drop_all,
  evict, create_entry, acquire, cutover,
}
use distributed_rate_limiter.Core.Pool.Invariant.{entry_for-found}
use distributed_rate_limiter.Core.Pool.Sharded.{
  LimiterPool, acquire_limiter, cutover_limiter, index_for, put_shard,
}
use distributed_rate_limiter.Core.RuleCache.{RulesSnapshot}
use distributed_rate_limiter.Core.RuleCache
use distributed_rate_limiter.Core.Handler.{limiter_at}
use distributed_rate_limiter.Core.Handler.Pinned.{get_elem?-last}
use distributed_rate_limiter.Store.Admin.{
  InvalidationEvent, EventAction, action_upsert, action_delete,
}
use distributed_rate_limiter.Core.Propagation.{CacheInvalidator, apply_event}

-- A cutover takes the entry of its key out of the map.
entry_for-cutover : (key : Str) (s : LimiterPoolShard) → entry_for key (cutover key s) ≡ none
unfolding cutover entry_for
entry_for-cutover key s = elim (Option-cases (entry_for key s)) [
  | inl e ↦ rw (e, cutover) e
  | inr ((p, f), e) ↦ rw (e, cutover) (ground (arith, lookup-remove_self key s.m))
]

abbrev limiter_in : Option LimiterEntry → Option RedisLimiter
limiter_in none = none
limiter_in (some e) = some e.lim

drop_key-limiter :
    (key : Str) (p : ℕ) (lim : RedisLimiter) (s : LimiterPoolShard)
    → limiter_in (s.cell p) ≡ some lim
    → (limiter_in ((drop_key key s).cell p) ≡ some lim) × ((drop_key key s).handles ≡ s.handles)
unfolding drop_key
drop_key-limiter key p lim s h = elim (Option-cases (entry_for key s)) [
  | inl e ↦ rw (e, drop_key) (h, refl)
  | inr ((q, f), e) ↦
      let (known, at) = entry_for-found key s q f e in
      elim (Bool-cases (f.refs == 0)) [
        | inl z ↦ rw (e, z, drop_key) (ground (arith, h, at), refl)
        | inr z ↦ rw (e, z, drop_key) (ground (arith, h, at), refl)
      ]
]

drop_all-limiter :
    (keys : List Str) (p : ℕ) (lim : RedisLimiter) (s : LimiterPoolShard)
    → limiter_in (s.cell p) ≡ some lim
    → (limiter_in ((drop_all keys s).cell p) ≡ some lim) × ((drop_all keys s).handles ≡ s.handles)
unfolding drop_all
drop_all-limiter [] p lim s h = (h, refl)
drop_all-limiter (key ∷ keys) p lim s h =
    let (there, same) = drop_key-limiter key p lim s h in
    let (there', same') = drop_all-limiter keys p lim (drop_key key s) there in
    (there', same' ∙ same)

action-cases : (a : EventAction) → (a ≡ action_upsert) ⊎ (a ≡ action_delete)
action-cases action_upsert = inl refl
action-cases action_delete = inr refl

cutover-missing :
    (tenant_id resource : Str) (pool : LimiterPool)
    → entry_for (limiter_pool_key tenant_id resource) (
        (cutover_limiter tenant_id resource pool).shard
          (index_for tenant_id resource (cutover_limiter tenant_id resource pool)))
      ≡ none
unfolding cutover_limiter
cutover-missing tenant_id resource pool =
    let i = index_for tenant_id resource pool in
    let self : (i == i) ≡ true = ground arith in
    rw (self) (entry_for-cutover (limiter_pool_key tenant_id resource) (pool.shard i))

cut_out :
    (e : InvalidationEvent) (c : CacheInvalidator) (before after : LimiterPool)
    → c.pool ≡ some before
    → (apply_event e c).pool ≡ some after
    → entry_for
        (limiter_pool_key e.tenant_id e.resource)
        (after.shard (index_for e.tenant_id e.resource after))
      ≡ none
unfolding apply_event
cut_out e c before after had has = elim (action-cases e.action) [
  | inl a ↦
      let same : cutover_limiter e.tenant_id e.resource before ≡ after =
        ground (arith, had, has, a) in
      rw (← same) (cutover-missing e.tenant_id e.resource before)
  | inr a ↦
      let same : cutover_limiter e.tenant_id e.resource before ≡ after =
        ground (arith, had, has, a) in
      rw (← same) (cutover-missing e.tenant_id e.resource before)
]

-- The first acquisition of a key that the map does not have, in one shard.
abbrev Made : LimiterPoolShard → RedisLimiter → LimiterPoolShard × Result ℕ → Type 0
Made s lim (t, err e) = ⊥
Made s lim (t, ok h) =
    (p : ℕ) × (h ≡ length s.handles)
    × (t.handles ≡ s.handles ++ handle_on p ∷ [])
    × (limiter_in (t.cell p) ≡ some lim)

acquire-Made :
    (key : Str) (lim : RedisLimiter) (s : LimiterPoolShard)
    → entry_for key s ≡ none
    → Made s lim (acquire key (ok lim) s)
unfolding acquire create_entry evict
acquire-Made key lim s missing =
    let kept =
      drop_all-limiter (evict_if_needed (add key s.lru)).1 s.next lim
        (record {
          m = insert key s.next s.m;
          lru = (evict_if_needed (add key s.lru)).0;
          next = s.next + 1;
          cell =
              store s.next
                (record {
                  lim = lim;
                  state = entry_active;
                  refs = 1;
                  close_calls = 0;
                  asleep = false;
                })
                s.cell;
          handles = s.handles ++ handle_on s.next ∷ [];
          waiting = s.waiting;
        })
        (ground arith) in
    rw (missing, acquire) (s.next, refl, kept.1, kept.0)

shard_limiter :
    (i : ℕ) (pool : LimiterPool) (s : LimiterPoolShard) (lim : RedisLimiter)
    (a : LimiterPoolShard × Result ℕ)
    → Made s lim a
    → (h : ℕ) × (a.1 ≡ ok h) × (limiter_at (i, h) (put_shard i a.0 pool) ≡ some lim)
unfolding limiter_at
shard_limiter i pool s lim (t, err e) m = absurd m
shard_limiter i pool s lim (t, ok h) (p, at, same, there) =
    let self : (i == i) ≡ true = ground arith in
    let found : get_elem? t.handles h ≡ some (handle_on p) =
      rw (same, at) (get_elem?-last s.handles (handle_on p)) in
    (h, refl, rw (self, found, limiter_at) (ground (arith, there)))

abbrev handle_in : ℕ → Result ℕ → Result (ℕ × ℕ)
handle_in i (err e) = err e
handle_in i (ok h) = ok (i, h)

abbrev lent_from : ℕ → LimiterPool → LimiterPoolShard × Result ℕ → LimiterPool × Result (ℕ × ℕ)
lent_from i pool a = (put_shard i a.0 pool, handle_in i a.1)

abbrev lent_by_cases : ℕ → LimiterPool → LimiterPoolShard × Result ℕ → LimiterPool × Result (ℕ × ℕ)
lent_by_cases i pool a = (put_shard i a.0 pool, elim a.1 [ err e ↦ err e | ok h ↦ ok (i, h) ])

acquire_limiter-made :
    (rules : RulesSnapshot) (tenant_id resource : Str) (pool : LimiterPool) (rule : Rule)
    (lim : RedisLimiter) (params : RuleParams)
    → RuleCache.get tenant_id resource rules ≡ some rule
    → create pool.factory (some rule) ≡ ok (lim, params)
    → acquire_limiter rules tenant_id resource pool
      ≡ lent_from (index_for tenant_id resource pool) pool (
          acquire
            (limiter_pool_key tenant_id resource)
            (ok lim)
            (pool.shard (index_for tenant_id resource pool)))
unfolding acquire_limiter
acquire_limiter-made rules tenant_id resource pool rule lim params cached made =
    rw (cached, made, acquire_limiter)
      (shaped (index_for tenant_id resource pool) pool (
        acquire (limiter_pool_key tenant_id resource) (ok lim)
          (pool.shard (index_for tenant_id resource pool))))
  where
    shaped :
        (i : ℕ) (pool : LimiterPool) (a : LimiterPoolShard × Result ℕ)
        → lent_by_cases i pool a ≡ lent_from i pool a
    shaped i pool (t, err e) = refl
    shaped i pool (t, ok h) = refl

-- After an invalidation event for a tenant and a resource, whatever its version, the next
-- acquisition for them does not get a limiter that the pool had before: its handle has the limiter
-- that the factory makes of the rule in the cache, if there is one of which it can make one.
pub apply_event-acquire :
    (e : InvalidationEvent) (c : CacheInvalidator) (rules : RulesSnapshot)
    (before after : LimiterPool) (rule : Rule) (lim : RedisLimiter) (params : RuleParams)
    → c.pool ≡ some before
    → (apply_event e c).pool ≡ some after
    → RuleCache.get e.tenant_id e.resource rules ≡ some rule
    → create after.factory (some rule) ≡ ok (lim, params)
    → (h : ℕ × ℕ) × ((acquire_limiter rules e.tenant_id e.resource after).1 ≡ ok h)
      × (limiter_at h (acquire_limiter rules e.tenant_id e.resource after).0 ≡ some lim)
apply_event-acquire e c rules before after rule lim params had has cached made =
    let i = index_for e.tenant_id e.resource after in
    let key = limiter_pool_key e.tenant_id e.resource in
    let (h, gives, at) =
      shard_limiter i after (after.shard i) lim (acquire key (ok lim) (after.shard i))
        (acquire-Made key lim (after.shard i) (cut_out e c before after had has)) in
    let whole =
      acquire_limiter-made rules e.tenant_id e.resource after rule lim params cached made in
    (
      (i, h),
      ap (λ x. x.1) whole ∙ ap (handle_in i) gives,
      ap (λ x. limiter_at (i, h) x.0) whole ∙ at,
    )
