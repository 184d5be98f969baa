-- ===== src/Observability/Laws.antt =====
-- What a summary of latencies says of the calls, and a counter of the increments.
use distributed_rate_limiter.Base.{
  ℕ, ◌+◌, ◌^◌, ◌<◌, ◌≡◌, refl, arith, leb, if◌then◌else◌, List, [], ◌∷◌, length, ap, ◌∙◌,
}
use distributed_rate_limiter.Base.Int.{ℤ, pos, add64_pos}
use distributed_rate_limiter.Base.Str.{Str}
use distributed_rate_limiter.Base.Assoc.{lookup, lookup-insert_self}
use distributed_rate_limiter.Observability.{
  LatencySummary, InMemoryMetrics, latency_key, latency_at, observe, observe_latency,
  new_in_memory_metrics,
}

unfoldable pub total : List ℕ → ℕ
total [] = 0
total (x ∷ xs) = x + total xs

abbrev larger : ℕ → ℕ → ℕ
larger a b = if leb a b then b else a

unfoldable pub largest : List ℕ → ℕ
largest [] = 0
largest (x ∷ xs) = larger x (largest xs)

-- The summary of some durations.
abbrev pub summary : ℕ → ℕ → ℕ → LatencySummary
summary count sum max = record { count = pos count; total_nanos = pos sum; max_nanos = pos max }

observe-summary :
    (x c t m : ℕ)
    → c + 1 < 2 ^ 63
    → t + x < 2 ^ 63
    → observe (pos x) (summary c t m) ≡ summary (c + 1) (t + x) (larger x m)
observe-summary x c t m hc ht = rw (add64_pos c 1 hc, add64_pos t x ht) (ground arith)

-- Calls of ObserveLatency with one name and region.
unfoldable pub observe_all : Str → Str → List ℕ → InMemoryMetrics → InMemoryMetrics
observe_all op region [] m = m
observe_all op region (x ∷ xs) m = observe_all op region xs (observe_latency op (pos x) region m)

module _ (op region : Str) where
  latency-observe :
      (d : ℤ) (m : InMemoryMetrics)
      → latency_at (latency_key op region) (observe_latency op d region m)
        ≡ observe d (latency_at (latency_key op region) m)
  unfolding observe_latency
  latency-observe d m =
      rw
        (
          lookup-insert_self (latency_key op region)
              (observe d (latency_at (latency_key op region) m)) m.latencies,
          latency_at,
        )
        refl

  from_summary :
      (xs : List ℕ) (c t b : ℕ) (m : InMemoryMetrics)
      → latency_at (latency_key op region) m ≡ summary c t b
      → c + length xs < 2 ^ 63
      → t + total xs < 2 ^ 63
      → latency_at (latency_key op region) (observe_all op region xs m)
        ≡ summary (c + length xs) (t + total xs) (larger (largest xs) b)
  unfolding observe_all total largest
  from_summary [] c t b m h hc ht = h ∙ ground arith
  from_summary (x ∷ xs) c t b m h hc ht =
      from_summary xs (c + 1) (t + x) (larger x b) (observe_latency op (pos x) region m)
        (latency-observe (pos x) m
          ∙ ap (observe (pos x)) h
          ∙ observe-summary x c t b (omega (arith, hc)) (omega (arith, ht)))
        (omega (arith, hc)) (omega (arith, ht))
      ∙ grind arith

  -- After any calls of ObserveLatency with one name and region, in metrics that had none, the
  -- summary has their number, their sum and the largest of them, where number and sum fit an int64.
  pub observe_all-summary :
      (xs : List ℕ)
      → length xs < 2 ^ 63
      → total xs < 2 ^ 63
      → latency_at (latency_key op region) (observe_all op region xs new_in_memory_metrics)
        ≡ summary (length xs) (total xs) (largest xs)
  unfolding lookup
  observe_all-summary xs hc ht =
      from_summary xs 0 0 0 new_in_memory_metrics refl (omega (arith, hc)) (omega (arith, ht))
      ∙ grind arith
