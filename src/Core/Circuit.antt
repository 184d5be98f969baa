-- ===== src/Core/Circuit.antt =====
-- circuit.go. Each method is one step: interleavings of the atomic operations inside several calls
-- are not modelled.
pub mod Laws
mod Examples
use distributed_rate_limiter.Base.{ℕ, Bool, true, false, if◌then◌else◌, leb}
use distributed_rate_limiter.Base.Int.{ℤ, pos, negsuc, add64, leb_ℤ}
use distributed_rate_limiter.Core.Clock.{add_time, milliseconds}

pub data CircuitState : Type 0 where
  circuit_closed circuit_open circuit_half_open : CircuitState

pub record CircuitOptions : Type 0 where
  pub failure_threshold : ℤ
  pub open_duration : ℤ
  pub half_open_max_calls : ℤ

-- The instants that the source keeps as UnixNano numbers are kept as times.
pub record CircuitBreaker : Type 0 where
  pub state : CircuitState
  pub last_failure : ℕ
  pub open_until : ℕ
  pub failures : ℤ
  pub half_open_in_flight : ℤ
  pub opts : CircuitOptions

-- A value that is not positive gets its default.
abbrev pub or_default : ℤ → ℤ → ℤ
or_default x d = if leb_ℤ x (pos 0) then d else x

unfoldable pub new_circuit_breaker : CircuitOptions → CircuitBreaker
new_circuit_breaker opts = record {
  state = circuit_closed;
  last_failure = 0;
  open_until = 0;
  failures = pos 0;
  half_open_in_flight = pos 0;
  opts = record {
    failure_threshold = or_default opts.failure_threshold (pos 10);
    open_duration = or_default opts.open_duration (milliseconds 200);
    half_open_max_calls = or_default opts.half_open_max_calls (pos 5);
  };
}

abbrev allow_in : CircuitState → CircuitBreaker → ℕ → CircuitBreaker × Bool
allow_in circuit_closed cb now = (cb, true)
allow_in circuit_open cb now =
    if leb cb.open_until now
    then (record cb { state = circuit_half_open; half_open_in_flight = pos 0 }, true)
    else (cb, false)
allow_in circuit_half_open cb now =
    let in_flight = add64 cb.half_open_in_flight (pos 1) in
    if leb_ℤ in_flight cb.opts.half_open_max_calls
    then (record cb { half_open_in_flight = in_flight }, true)
    else (record cb { half_open_in_flight = add64 in_flight (negsuc 0) }, false)

-- Allow
unfoldable pub allow : CircuitBreaker → ℕ → CircuitBreaker × Bool
allow cb now = allow_in cb.state cb now

abbrev success_in : CircuitState → CircuitBreaker → CircuitBreaker
success_in circuit_half_open cb = record cb {
  half_open_in_flight = add64 cb.half_open_in_flight (negsuc 0);
  failures = pos 0;
  state = circuit_closed;
}
success_in circuit_closed cb = record cb { failures = pos 0 }
success_in circuit_open cb = cb

-- OnSuccess
unfoldable pub on_success : CircuitBreaker → CircuitBreaker
on_success cb = success_in cb.state cb

abbrev count_failure : CircuitBreaker → ℕ → CircuitBreaker
count_failure cb now =
    let failures = add64 cb.failures (pos 1) in
    if leb_ℤ cb.opts.failure_threshold failures
    then record cb {
      failures = failures;
      open_until = add_time now cb.opts.open_duration;
      state = circuit_open;
    }
    else record cb { failures = failures }

abbrev failure_in : CircuitState → CircuitBreaker → ℕ → CircuitBreaker
failure_in circuit_half_open cb now = record cb {
  half_open_in_flight = add64 cb.half_open_in_flight (negsuc 0);
  failures = cb.opts.failure_threshold;
  open_until = add_time now cb.opts.open_duration;
  state = circuit_open;
}
failure_in circuit_closed cb now = count_failure cb now
failure_in circuit_open cb now = count_failure cb now

-- OnFailure. The clock is read at `now`, and at `later` if the breaker opens.
unfoldable pub on_failure : CircuitBreaker → ℕ → ℕ → CircuitBreaker
on_failure cb now later = failure_in cb.state (record cb { last_failure = now }) later
