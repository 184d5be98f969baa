-- ===== src/Core/Keys/Examples.antt =====
-- The keys of concrete names.
use distributed_rate_limiter.Base.{◌≡◌, refl, ◌∷◌, ◌++◌}
use distributed_rate_limiter.Base.Str.{bytes}
use distributed_rate_limiter.Core.Keys.{separator, limiter_pool_key}

-- Two pairs of names with one key.
one_key :
    limiter_pool_key (bytes "a" ++ separator ∷ bytes "b") (bytes "c")
    ≡ limiter_pool_key (bytes "a") (bytes "b" ++ separator ∷ bytes "c")
unfolding limiter_pool_key
one_key = refl
