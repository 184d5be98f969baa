-- ===== src/Core/Mode/Examples.antt =====
-- The controller at concrete health checks, over whole numbers in place of float64.
use distributed_rate_limiter.Base.{
  ℕ, ◌≡◌, refl, Bool, true, false, arith, none, some, List, [], ◌∷◌,
}
use distributed_rate_limiter.Base.Int.{ℤ, pos}
use distributed_rate_limiter.Base.Str.{bytes}
use distributed_rate_limiter.Base.Float.Whole.{whole}
use distributed_rate_limiter.Core.Clock.{sub_time}
use distributed_rate_limiter.Core.Mode.{
  mode_normal, mode_degraded, DegradeController, redis_ok, mship_ok, mode_for, update,
  region_status, health_of,
}
use distributed_rate_limiter.Core.Mode.Health.{Check}
use distributed_rate_limiter.Core.Mode.Laws.{run, Follows, mode-run, healthy_redis_normal}

abbrev controller : DegradeController ℤ
controller = record {
  mode = mode_normal;
  thresholds = record {
    redis_unhealthy_for = pos 500;
    membership_unhealthy = pos 2000;
    error_rate_window = pos 0;
  };
  region = bytes "eu";
  require_quorum = true;
  quorum_fraction = pos 1;
  last_redis_healthy = 1000;
  last_mship_healthy = 1000;
  last_mode = mode_normal;
}

abbrev check : ℕ → Bool → Check
check now up = record { now = now; redis = some up; mship = none }

abbrev checks : List Check
checks = check 1100 true ∷ check 1200 false ∷ []

-- The redis was last healthy 600 ago, and there was never a quorum.
degraded_after :
    (update whole (run whole controller checks) 1700 (some false) none).0.mode ≡ mode_degraded
unfolding run update mode_for sub_time redis_ok mship_ok region_status health_of
degraded_after = refl

mode-run_example : Follows whole controller checks (check 1700 false)
mode-run_example = mode-run whole controller checks (check 1700 false)

healthy_redis_normal_example : (update whole controller 9000 (some true) none).0.mode ≡ mode_normal
unfolding redis_ok
healthy_redis_normal_example =
    healthy_redis_normal whole controller (check 9000 true) (omega arith) refl
