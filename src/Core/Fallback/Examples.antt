-- ===== src/Core/Fallback/Examples.antt =====
-- The fallback at concrete requests.
use distributed_rate_limiter.Base.{ℕ, ◌≤◌, ◌≡◌, refl, false, arith, none, some, List, [], ◌∷◌}
use distributed_rate_limiter.Base.Int.{pos}
use distributed_rate_limiter.Base.Str.{Str, bytes}
use distributed_rate_limiter.Core.Models.{RuleParams}
use distributed_rate_limiter.Core.Mode.{OperatingMode, mode_normal, mode_degraded, mode_emergency}
use distributed_rate_limiter.Core.Fallback.{
  FallbackPolicy, FallbackLimiter, normalize_fallback_policy, allow,
}
use distributed_rate_limiter.Core.Fallback.Laws.{allow-not_owner}
use distributed_rate_limiter.Core.Fallback.History.{Call, granted, granted-le-ceiling}

abbrev policy : FallbackPolicy
policy = record {
  local_cap_per_window = pos 20;
  deny_when_not_owner = false;
  emergency_allow_small_cap = false;
  emergency_cap_per_window = pos 5;
}

abbrev limiter : FallbackLimiter
limiter = record {
  ownership = some (λ _. false);
  mship = none;
  region = bytes "eu";
  region_group = [];
  policy = policy;
}

abbrev params : RuleParams
params = record { limit = pos 10; window = pos 1000; burst = pos 0; version = pos 1 }

abbrev key : Str
key = bytes "t"

abbrev call : OperatingMode → ℕ → ℕ → Call
call mode now cost = record {
  mode = mode;
  mship = none;
  ownership = none;
  now = now;
  key = key;
  cost = pos cost;
}

abbrev calls : List Call
calls = call mode_normal 5100 15 ∷ call mode_emergency 5200 4 ∷ call mode_degraded 5300 5 ∷ []

granted-le-ceiling_example : granted limiter (λ _. params) key 5000 [] calls ≤ 20
unfolding normalize_fallback_policy
granted-le-ceiling_example =
    granted-le-ceiling limiter (λ _. params) key 5000 5000 calls (omega arith)

allow-not_owner_example :
    ((allow limiter mode_normal [] 5100 key params (pos 1)).0 ≡ [])
    × ((allow limiter mode_normal [] 5100 key params (pos 1)).1.allowed ≡ false)
allow-not_owner_example = allow-not_owner limiter mode_normal [] 5100 key params (pos 1) refl
