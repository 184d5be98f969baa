-- ===== src/Base/Fnv.antt =====
-- FNV-1a of Go's package hash/fnv, over 32 and 64 bits.
use Prim.Native.Nat.{ℕ, ◌*◌, ◌%◌, ◌^◌, bit_xor}
use mathlib.Core.List.{[], ◌∷◌}
use mathlib.Core.Path.{◌≡◌, refl}
use distributed_rate_limiter.Base.Str.{Str, bytes}

unfoldable pub fnv32a_from : ℕ → Str → ℕ
fnv32a_from h [] = h
fnv32a_from h (b ∷ s) = fnv32a_from ((bit_xor h b * 16777619) % 2 ^ 32) s

-- fnv.New32a(), Write, Sum32
unfoldable pub fnv32a : Str → ℕ
unfolding fnv32a_from
fnv32a = fnv32a_from 2166136261

unfoldable pub fnv64a_from : ℕ → Str → ℕ
fnv64a_from h [] = h
fnv64a_from h (b ∷ s) = fnv64a_from ((bit_xor h b * 1099511628211) % 2 ^ 64) s

unfoldable pub fnv64a : Str → ℕ
unfolding fnv64a_from
fnv64a = fnv64a_from 14695981039346656037

-- The published test values of the two functions for the text "a".
fnv32a_a : fnv32a (bytes "a") ≡ 0xe40c292c
unfolding fnv32a
fnv32a_a = refl

fnv64a_a : fnv64a (bytes "a") ≡ 0xaf63dc4c8601ec8c
unfolding fnv64a
fnv64a_a = refl
