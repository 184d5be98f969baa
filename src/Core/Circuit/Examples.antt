-- ===== src/Core/Circuit/Examples.antt =====
-- The breaker at concrete calls.
use distributed_rate_limiter.Base.{◌≡◌, refl, arith, List, [], ◌∷◌}
use distributed_rate_limiter.Base.Int.{pos}
use distributed_rate_limiter.Core.Circuit.{
  circuit_closed, circuit_open, CircuitOptions, CircuitBreaker,
}
use distributed_rate_limiter.Core.Circuit.Laws.{
  IsConfigured, Inv, CircuitCall, allows, succeeds, admitted, admitted-half_open,
}

abbrev opts : CircuitOptions
opts = record { failure_threshold = pos 2; open_duration = pos 100; half_open_max_calls = pos 1 }

abbrev fresh : CircuitBreaker
fresh = record {
  state = circuit_closed;
  last_failure = 0;
  open_until = 0;
  failures = pos 0;
  half_open_in_flight = pos 0;
  opts = opts;
}

abbrev opened : CircuitBreaker
opened = record fresh { state = circuit_open; open_until = 200; failures = pos 2 }

opts-IsConfigured : IsConfigured opts
opts-IsConfigured = record {
  threshold_pos = omega arith;
  threshold_fits = omega arith;
  duration_pos = omega arith;
  probes_pos = omega arith;
  probes_fits = omega arith;
}

fresh-Inv : Inv fresh
fresh-Inv = record {
  configured = opts-IsConfigured;
  failures_nonneg = omega arith;
  closed_below = λ _. omega arith;
}

abbrev early : List CircuitCall
early = allows 150 ∷ succeeds ∷ []

admitted-half_open_example : admitted opened 200 3 ≡ 2
admitted-half_open_example = admitted-half_open opened 200 3 refl opts-IsConfigured (omega arith)
