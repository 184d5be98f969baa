-- ===== src/Core/Pool/Examples.antt =====
-- A shard for one limiter, on which a second one evicts the first.
use distributed_rate_limiter.Base.{◌≡◌, refl, true, false, Option, none, some, List, [], ◌∷◌}
use distributed_rate_limiter.Base.Assoc.{lookup, insert, remove}
use distributed_rate_limiter.Base.Int.{pos}
use distributed_rate_limiter.Base.Str.{bytes, str_eq}
use distributed_rate_limiter.Core.Limiter.{RedisLimiter}
use distributed_rate_limiter.Core.Lru.{
  new_lru_keys, has, without, add, touch, split_last, evict_loop, evict_if_needed,
}
use distributed_rate_limiter.Core.Models.{ok}
use distributed_rate_limiter.Core.RedisClient.{limiter_fixed_window}
use distributed_rate_limiter.Core.Pool.{
  entry_closed, LimiterEntry, LimiterPoolShard, entry_for, drop_key, drop_all, evict, create_entry,
  acquire, mark_released, release, waits, no_longer, close_waited, sleep, is_closed,
}
use distributed_rate_limiter.Core.Pool.Draining.{release_all, release_all-closes}
use distributed_rate_limiter.Core.Pool.Sharded.{new_shard}
use distributed_rate_limiter.Core.Pool.Counts.{pins}
use distributed_rate_limiter.Core.Pool.Invariant.{Inv}
use distributed_rate_limiter.Core.Pool.History.{
  Step, acquires, releases, sleeps, closes, step, run, run-Inv,
}
use distributed_rate_limiter.Core.Pool.Calm.{closed-pins}

abbrev limiter : RedisLimiter
limiter = record {
  algo = limiter_fixed_window;
  params = record { limit = pos 10; window = pos 1000; burst = pos 0; version = pos 1 };
}

abbrev both : List Step
both = acquires (bytes "a") (ok limiter) ∷ acquires (bytes "b") (ok limiter) ∷ []

abbrev all_steps : List Step
all_steps =
    acquires (bytes "a") (ok limiter)
    ∷ acquires (bytes "b") (ok limiter)
    ∷ sleeps 0
    ∷ releases 0
    ∷ closes 0
    ∷ []

program : Unit {0}
unfolding lookup insert remove str_eq new_lru_keys has without add touch split_last evict_loop
    evict_if_needed entry_for drop_key drop_all evict create_entry acquire mark_released release
    waits no_longer close_waited sleep pins step run
program = tt

abbrev from_some : Option LimiterPoolShard → LimiterPoolShard
from_some none = new_shard (pos 1)
from_some (some s) = s

-- The first limiter waits for its handle.
evicted : (from_some (run both (new_shard (pos 1)))).waiting ≡ 0 ∷ []
unfolding program
evicted = refl

run-Inv_example : Inv (from_some (run all_steps (new_shard (pos 1))))
unfolding program
run-Inv_example = run-Inv (pos 1) all_steps (from_some (run all_steps (new_shard (pos 1)))) refl

closed-pins_example : pins 0 (from_some (run all_steps (new_shard (pos 1)))).handles ≡ 0
unfolding program
closed-pins_example =
    closed-pins (pos 1) all_steps (from_some (run all_steps (new_shard (pos 1)))) 0
      (record { lim = limiter; state = entry_closed; refs = 0; close_calls = 1; asleep = false }) tt
      refl refl refl

-- The goroutine that waits to close the evicted limiter falls asleep.
abbrev to_sleep : List Step
to_sleep = acquires (bytes "a") (ok limiter) ∷ acquires (bytes "b") (ok limiter) ∷ sleeps 0 ∷ []

release_all-closes_example :
    (t : LimiterPoolShard) × (e : LimiterEntry) × (close_waited false 0
        (release_all 2 (from_some (run to_sleep (new_shard (pos 1)))))
      ≡ some t)
    × (t.cell 0 ≡ some e)
    × (is_closed e.state ≡ true)
    × (e.close_calls ≡ 1)
unfolding program
release_all-closes_example =
    release_all-closes (pos 1) to_sleep (from_some (run to_sleep (new_shard (pos 1)))) 0 refl refl
