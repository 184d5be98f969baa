-- ===== src/Observability.antt =====
-- internal/ratelimit/observability: the counters and latencies of metrics.go, and the sampler of
-- tracing.go. A sync.Map is an association list, a counter in it an int64.
pub mod Laws
mod Examples
use distributed_rate_limiter.Base.{
  ℕ, ◌+◌, ◌%◌, ◌^◌, Bool, true, false, ◌==◌, if◌then◌else◌, Option, none, some, List, [], ◌∷◌, ◌++◌,
}
use distributed_rate_limiter.Base.Int.{ℤ, pos, pos_part, leb_ℤ, add64}
use distributed_rate_limiter.Base.Str.{Str, bytes, is_empty}
use distributed_rate_limiter.Base.Assoc.{Assoc, lookup, insert}
use distributed_rate_limiter.Base.Fnv.{fnv32a}

pub record LatencySummary : Type 0 where
  pub count : ℤ
  pub total_nanos : ℤ
  pub max_nanos : ℤ

pub record InMemoryMetrics : Type 0 where
  pub counters : Assoc ℤ
  pub latencies : Assoc LatencySummary

abbrev pub new_in_memory_metrics : InMemoryMetrics
new_in_memory_metrics = record { counters = []; latencies = [] }

-- The Load of a counter that getCounter makes where there is none.
abbrev pub counter_at : Str → InMemoryMetrics → ℤ
counter_at key m = elim (lookup key m.counters) [ none ↦ pos 0 | some n ↦ n ]

-- incCounter
unfoldable pub inc_counter : Str → InMemoryMetrics → InMemoryMetrics
inc_counter key m =
    if is_empty key
    then m
    else record m { counters = insert key (add64 (counter_at key m) (pos 1)) m.counters }

-- fmt.Sprintf of a name and its labels.
abbrev pub joined : Str → List Str → Str
joined s [] = s
joined s (t ∷ ts) = joined (s ++ bytes "|" ++ t) ts

unfoldable pub check_key : Str → Str → Str → Str
check_key result algorithm region = joined (bytes "check") (result ∷ algorithm ∷ region ∷ [])

unfoldable pub inc_check : Str → Str → Str → InMemoryMetrics → InMemoryMetrics
unfolding check_key inc_counter
inc_check result algorithm region = inc_counter (check_key result algorithm region)

unfoldable pub inc_fallback : Str → Str → InMemoryMetrics → InMemoryMetrics
unfolding inc_counter
inc_fallback reason region = inc_counter (joined (bytes "fallback") (reason ∷ region ∷ []))

unfoldable pub inc_redis_error : Str → Str → InMemoryMetrics → InMemoryMetrics
unfolding inc_counter
inc_redis_error op region = inc_counter (joined (bytes "redis_error") (op ∷ region ∷ []))

unfoldable pub inc_batch_item_error : Str → Str → InMemoryMetrics → InMemoryMetrics
unfolding inc_counter
inc_batch_item_error code region = inc_counter (joined (bytes "batch_error") (code ∷ region ∷ []))

unfoldable pub latency_key : Str → Str → Str
latency_key op region = joined (bytes "latency") (op ∷ region ∷ [])

-- getLatency
abbrev pub latency_at : Str → InMemoryMetrics → LatencySummary
latency_at key m = elim (lookup key m.latencies) [
  | none ↦ record { count = pos 0; total_nanos = pos 0; max_nanos = pos 0 }
  | some e ↦ e
]

-- One call without interruption: the loop on the maximum then runs once.
abbrev pub observe : ℤ → LatencySummary → LatencySummary
observe nanos e = record {
  count = add64 e.count (pos 1);
  total_nanos = add64 e.total_nanos nanos;
  max_nanos = if leb_ℤ nanos e.max_nanos then e.max_nanos else nanos;
}

-- ObserveLatency
unfoldable pub observe_latency : Str → ℤ → Str → InMemoryMetrics → InMemoryMetrics
unfolding latency_key
observe_latency op d region m =
    let key = latency_key op region in
    record m { latencies = insert key (observe d (latency_at key m)) m.latencies }

-- HashSampler.Sampled; the rate is reduced to 32 bits before it divides.
unfoldable pub sampled : ℤ → Str → Bool
sampled rate trace_id =
    if is_empty trace_id
    then false
    else if leb_ℤ rate (pos 0)
    then false
    else fnv32a trace_id % (pos_part rate % 2 ^ 32) == 0
