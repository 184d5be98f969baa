-- ===== src/Core/Keys/Laws.antt =====
-- When two different pairs of names have the same key.
use distributed_rate_limiter.Base.{◌≡◌, ◌≢◌, refl, [], ◌∷◌, ◌++◌}
use mathlib.Core.List.{append_assoc}
use distributed_rate_limiter.Base.Str.{Str}
use distributed_rate_limiter.Core.Keys.{separator, limiter_pool_key, build_key}

-- The text holds no separator.
abbrev pub Plain : Str → Type 0
Plain [] = Unit {0}
Plain (c ∷ s) = (c ≢ separator) × Plain s

pub split_unique :
    (a b x y : Str)
    → Plain a
    → Plain b
    → a ++ separator ∷ x ≡ b ++ separator ∷ y
    → (a ≡ b) × (x ≡ y)
split_unique [] [] x y p q h = (refl, cc)
split_unique [] (d ∷ b) x y p q h = absurd (q.0 (cc))
split_unique (c ∷ a) [] x y p q h = absurd (p.0 (cc))
split_unique (c ∷ a) (d ∷ b) x y p q h =
    let r = split_unique a b x y p.1 q.1 (cc) in (cc (r.0), r.1)

-- Tenants without a separator in their names never share a limiter: equal
-- keys have equal names.
pub limiter_pool_key-injective :
    (t u r s : Str)
    → Plain t
    → Plain u
    → limiter_pool_key t r ≡ limiter_pool_key u s
    → (t ≡ u) × (r ≡ s)
unfolding limiter_pool_key
limiter_pool_key-injective t u r s p q h = split_unique t u r s p q h

pub build_key-injective :
    (t u x y r s : Str)
    → Plain t
    → Plain u
    → Plain x
    → Plain y
    → build_key t x r ≡ build_key u y s
    → (t ≡ u) × (x ≡ y) × (r ≡ s)
unfolding build_key
build_key-injective t u x y r s p q v w h =
    let outer = split_unique t u _ _ p q h in
    let inner = split_unique x y r s v w outer.1 in (outer.0, inner.0, inner.1)

-- A separator may stand on either side of the border: whatever `a`, `b` and `c` are, the tenant
-- `a 1f b` with the resource `c` has the key of the tenant `a` with the resource `b 1f c`.
pub limiter_pool_key-collides :
    (a b c : Str)
    → limiter_pool_key (a ++ separator ∷ b) c ≡ limiter_pool_key a (b ++ separator ∷ c)
unfolding limiter_pool_key
limiter_pool_key-collides a b c = append_assoc a (separator ∷ b) (separator ∷ c)
