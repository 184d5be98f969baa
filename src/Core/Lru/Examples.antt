-- ===== src/Core/Lru/Examples.antt =====
-- Eviction from a concrete shard.
use distributed_rate_limiter.Base.{◌≤◌, refl, [], ◌∷◌, length}
use distributed_rate_limiter.Base.Str.{bytes, str_eq}
use distributed_rate_limiter.Core.Lru.{LruKeys, has, evict_if_needed}
use distributed_rate_limiter.Core.Lru.Laws.{Inv}
use distributed_rate_limiter.Core.Lru.Eviction.{Evicts, evict_if_needed-Evicts}

abbrev two_keys : LruKeys
two_keys = record {
  max = 1;
  items = bytes "a" ∷ bytes "b" ∷ [];
  order = bytes "a" ∷ bytes "b" ∷ [];
}

two_keys-Inv : Inv two_keys
unfolding has str_eq
two_keys-Inv = record {
  same_keys = λ k. refl;
  order_distinct = (refl, (refl, tt));
  items_distinct = (refl, (refl, tt));
  same_length = refl;
}

evict_if_needed-Evicts_example :
    Evicts 1 two_keys (evict_if_needed two_keys) × (length (evict_if_needed two_keys).0.items ≤ 1)
evict_if_needed-Evicts_example = evict_if_needed-Evicts two_keys two_keys-Inv
