-- ===== src/Core/Limiter/Factory.antt =====
-- LimiterFactory of limiter.go: a limiter from a rule. The algorithm's name is an ASCII text here:
-- ToLower and TrimSpace are modelled on ASCII letters and white space.
use distributed_rate_limiter.Base.{
  ℕ, ◌+◌, ◌≡◌, refl, Bool, false, ◌&&◌, ◌||◌, Option, none, some, [], ◌∷◌, leb, ◌==◌, if◌then◌else◌,
  arith, map,
}
use mathlib.Core.List.{reverse}
use distributed_rate_limiter.Base.Int.{pos, leb_ℤ, ◌<ℤ◌}
use distributed_rate_limiter.Base.Str.{Str, bytes, str_eq, is_empty}
use distributed_rate_limiter.Core.Models.{Rule, RuleParams, Result, ok, err, plain}
use distributed_rate_limiter.Core.RedisClient.{
  LimiterAlgorithm, limiter_token_bucket, limiter_fixed_window, limiter_sliding_window,
}
use distributed_rate_limiter.Core.Limiter.{RedisLimiter}

unfoldable pub to_lower : ℕ → ℕ
to_lower c = if leb b'A' c && leb c b'Z' then c + 32 else c

unfoldable pub is_space : ℕ → Bool
is_space c = (leb 9 c && leb c 13) || c == 32

unfoldable pub trim_left : Str → Str
unfolding is_space
trim_left [] = []
trim_left (c ∷ s) = let rest = trim_left s in if is_space c then rest else c ∷ s

-- strings.TrimSpace
unfoldable pub trim_space : Str → Str
unfolding trim_left
trim_space s = reverse (trim_left (reverse (trim_left s)))

-- strings.ReplaceAll(s, " ", "_")
unfoldable pub underscore : ℕ → ℕ
underscore c = if c == 32 then 95 else c

unfoldable pub normalized : Str → Str
unfolding to_lower trim_space underscore
normalized s = map underscore (map to_lower (trim_space s))

unfoldable pub one_of : Str → Str → Str → Bool
one_of s a b = str_eq s a || str_eq s b

unfoldable pub normalize_algorithm : Str → Result LimiterAlgorithm
unfolding normalized one_of
normalize_algorithm algo =
    if is_empty algo
    then err (plain "algorithm is required")
    else (let n = normalized algo in
        if one_of n (bytes "token_bucket") (bytes "tokenbucket")
        then ok limiter_token_bucket
        else (if one_of n (bytes "fixed_window") (bytes "fixedwindow")
            then ok limiter_fixed_window
            else (if one_of n (bytes "sliding_window") (bytes "slidingwindow")
                then ok limiter_sliding_window
                else err (plain "unsupported algorithm"))))

-- Whether the factory has a redis, a fallback and a mode controller.
pub record LimiterFactory : Type 0 where
  pub has_redis : Bool
  pub has_fallback : Bool
  pub has_mode : Bool

abbrev params_of : Rule → RuleParams
params_of rule = record {
  limit = rule.limit;
  window = rule.window;
  burst = rule.burst_size;
  version = rule.version;
}

abbrev with_algorithm : Rule → Result LimiterAlgorithm → Result (RedisLimiter × RuleParams)
with_algorithm rule (err e) = err e
with_algorithm rule (ok algo) = ok (record { algo = algo; params = params_of rule }, params_of rule)

-- Create. Every limiter shares the factory's clients; a breaker that is missing is made once.
unfoldable pub create : LimiterFactory → Option Rule → Result (RedisLimiter × RuleParams)
create factory none =
    if factory.has_redis && (factory.has_fallback && factory.has_mode)
    then err (plain "rule is required")
    else err (plain "limiter factory is not configured")
create factory (some rule) =
    if factory.has_redis && (factory.has_fallback && factory.has_mode)
    then (if is_empty rule.tenant_id || is_empty rule.resource
        then err (plain "rule must include tenant and resource")
        else (if leb_ℤ rule.limit (pos 0)
            then err (plain "rule limit must be positive")
            else with_algorithm rule (normalize_algorithm rule.algorithm)))
    else err (plain "limiter factory is not configured")

-- A limiter is made only of a rule with names and a positive limit, under a configured factory,
-- and it works with that rule's numbers and version.
pub create_ok :
    (factory : LimiterFactory) (rule : Rule) (lim : RedisLimiter) (params : RuleParams)
    → create factory (some rule) ≡ ok (lim, params)
    → (pos 0 <ℤ rule.limit)
      × (is_empty rule.tenant_id ≡ false)
      × (is_empty rule.resource ≡ false)
      × (normalize_algorithm rule.algorithm ≡ ok lim.algo)
      × (lim.params ≡ params)
      × (params.limit ≡ rule.limit)
      × (params.version ≡ rule.version)
unfolding create
create_ok factory rule lim params h = ground arith

normalize_names :
    (normalize_algorithm (bytes " Token Bucket ") ≡ ok limiter_token_bucket)
    × (normalize_algorithm (bytes "FIXED_WINDOW") ≡ ok limiter_fixed_window)
    × (normalize_algorithm (bytes "slidingwindow") ≡ ok limiter_sliding_window)
    × (normalize_algorithm (bytes "leaky") ≡ err (plain "unsupported algorithm"))
unfolding normalize_algorithm normalized str_eq to_lower trim_space underscore
normalize_names = (refl, refl, refl, refl)
