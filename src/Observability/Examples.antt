-- ===== src/Observability/Examples.antt =====
-- Three calls of one name, and the sampler at its boundaries.
use distributed_rate_limiter.Base.{◌≡◌, refl, false, []}
use distributed_rate_limiter.Base.Int.{pos, add64, wrap64, of_bits, ◌+ℤ◌}
use distributed_rate_limiter.Base.Str.{bytes, str_eq}
use distributed_rate_limiter.Base.Assoc.{lookup, insert}
use distributed_rate_limiter.Observability.{
  new_in_memory_metrics, counter_at, inc_check, inc_counter, check_key, sampled,
}

counts_once :
    counter_at
      (bytes "check|allowed|fixed_window|eu")
      (inc_check (bytes "allowed") (bytes "fixed_window") (bytes "eu") new_in_memory_metrics)
    ≡ pos 1
unfolding inc_check check_key inc_counter lookup insert str_eq add64 wrap64 of_bits ◌+ℤ◌
counts_once = refl

no_trace : sampled (pos 1) [] ≡ false
unfolding sampled
no_trace = refl
