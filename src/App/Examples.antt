-- ===== src/App/Examples.antt =====
-- The default configuration, and one that turns coalescing off.
use distributed_rate_limiter.Base.{◌≡◌, refl, true, false}
use distributed_rate_limiter.Base.Float.Whole.{whole}
use distributed_rate_limiter.Base.Int.{pos}
use distributed_rate_limiter.Core.Models.{err, plain}
use distributed_rate_limiter.Config.{Config, default_config}
use distributed_rate_limiter.App.{rejected, new_application}

abbrev alone : Config whole.F
alone = record (default_config (pos 0)) { coalesce_enabled = false }

-- Authentication without a token is refused.
tokenless :
    new_application whole (record (default_config (pos 0)) { enable_auth = true })
    ≡ err (plain "admin token is required")
unfolding new_application rejected default_config
tokenless = refl
