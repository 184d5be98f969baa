-- ===== src/Core/Circuit/Laws.antt =====
-- When the breaker opens, how long it refuses, and how many probes it lets through.
use distributed_rate_limiter.Base.{
  ℕ, zero, suc, ◌+◌, ◌-◌, ◌≤◌, ◌<◌, ◌≡◌, refl, true, false, arith, if◌then◌else◌, inl, inr,
  Bool-cases, ap, ◌∙◌, List, [], ◌∷◌,
}
use distributed_rate_limiter.Base.Int.{
  pos, pos_part, ◌≤ℤ◌, ◌<ℤ◌, max_int64, add64_nonneg, nonneg_eq, ltb_ℤ, add64_pred,
}
use distributed_rate_limiter.Core.Clock.{add_time}
use distributed_rate_limiter.Core.Circuit.{
  circuit_closed, circuit_open, circuit_half_open, CircuitOptions, CircuitBreaker, allow,
  on_success, on_failure,
}
use Prim.Native.Nat.{min}

-- The options after the defaults, with room to count up to them.
pub record IsConfigured (o : CircuitOptions) : Type 0 where
  pub threshold_pos : pos 0 <ℤ o.failure_threshold
  pub threshold_fits : pos_part o.failure_threshold < max_int64
  pub duration_pos : pos 0 <ℤ o.open_duration
  pub probes_pos : pos 0 <ℤ o.half_open_max_calls
  pub probes_fits : pos_part o.half_open_max_calls < max_int64

-- A closed breaker has seen fewer failures in a row than the threshold.
pub record Inv (cb : CircuitBreaker) : Type 0 where
  pub configured : IsConfigured cb.opts
  pub failures_nonneg : pos 0 ≤ℤ cb.failures
  pub closed_below : cb.state ≡ circuit_closed → cb.failures <ℤ cb.opts.failure_threshold

pub data CircuitCall : Type 0 where
  allows : ℕ → CircuitCall
  succeeds : CircuitCall
  fails : ℕ → ℕ → CircuitCall

unfoldable pub step : CircuitBreaker → CircuitCall → CircuitBreaker
step cb (allows now) = (allow cb now).0
step cb succeeds = on_success cb
step cb (fails now later) = on_failure cb now later

allow-Inv : (cb : CircuitBreaker) (now : ℕ) → Inv cb → Inv (allow cb now).0
unfolding allow
allow-Inv cb now v = ground arith

on_success-Inv : (cb : CircuitBreaker) → Inv cb → Inv (on_success cb)
unfolding on_success
on_success-Inv cb v = ground arith

on_failure-Inv :
    (cb : CircuitBreaker) (now later : ℕ)
    → Inv cb
    → pos_part cb.failures < max_int64
    → Inv (on_failure cb now later)
unfolding on_failure
on_failure-Inv cb now later v room = ground (arith, add64_nonneg cb.failures (pos 1))

-- Every method keeps the invariant, that the options are positive and a closed breaker has seen
-- fewer failures than its threshold, as long as the count of failures has room in an int64.
pub step-Inv :
    (cb : CircuitBreaker) (c : CircuitCall)
    → Inv cb
    → pos_part cb.failures < max_int64
    → Inv (step cb c)
unfolding step
step-Inv cb (allows now) v room = allow-Inv cb now v
step-Inv cb succeeds v room = on_success-Inv cb v
step-Inv cb (fails now later) v room = on_failure-Inv cb now later v room

unfoldable pub run : CircuitBreaker → List CircuitCall → CircuitBreaker
run cb [] = cb
run cb (c ∷ cs) = run (step cb c) cs

-- Failures in a row, each with the two instants that it reads.
unfoldable pub fail_all : CircuitBreaker → List (ℕ × ℕ) → CircuitBreaker
fail_all cb [] = cb
fail_all cb ((now, later) ∷ fs) = fail_all (on_failure cb now later) fs

abbrev pub count : List (ℕ × ℕ) → ℕ
count [] = 0
count (f ∷ fs) = suc (count fs)

fail_once :
    (cb : CircuitBreaker) (now later : ℕ)
    → Inv cb
    → cb.state ≡ circuit_closed
    → (pos_part (on_failure cb now later).failures ≡ pos_part cb.failures + 1)
      × ((on_failure cb now later).opts ≡ cb.opts)
      × (pos_part cb.failures + 1 < pos_part cb.opts.failure_threshold
          → (on_failure cb now later).state ≡ circuit_closed)
      × (pos_part cb.failures + 1 ≡ pos_part cb.opts.failure_threshold
          → ((on_failure cb now later).state ≡ circuit_open)
            × ((on_failure cb now later).open_until ≡ add_time later cb.opts.open_duration))
unfolding on_failure
fail_once cb now later v closed = ground (arith, add64_nonneg cb.failures (pos 1))

-- A closed breaker stays closed while the failures in a row are fewer than the threshold.
pub fail_all-closed :
    (fs : List (ℕ × ℕ)) (cb : CircuitBreaker)
    → Inv cb
    → cb.state ≡ circuit_closed
    → pos_part cb.failures + count fs < pos_part cb.opts.failure_threshold
    → ((fail_all cb fs).state ≡ circuit_closed)
      × (pos_part (fail_all cb fs).failures ≡ pos_part cb.failures + count fs)
      × ((fail_all cb fs).opts ≡ cb.opts)
      × Inv (fail_all cb fs)
unfolding fail_all
fail_all-closed [] cb v closed h = (closed, omega arith, refl, v)
fail_all-closed ((now, later) ∷ fs) cb v closed h =
    let once = fail_once cb now later v closed in
    let rest =
      fail_all-closed fs (on_failure cb now later)
        (on_failure-Inv cb now later v (omega (arith, v.configured.threshold_fits)))
        (once.2 (omega arith)) (ground (arith, once.0, once.1)) in
    (rest.0, ground (arith, rest.1, once.0), rest.2 ∙ once.1, rest.3)

-- From a closed breaker that meets the invariant, with no failures on record: it stays closed for as many failures in a row
-- as are below the threshold, and the next one, which makes the threshold full, opens it for the
-- configured time.
pub opens_at_threshold :
    (cb : CircuitBreaker) (fs : List (ℕ × ℕ)) (now later : ℕ)
    → Inv cb
    → cb.state ≡ circuit_closed
    → cb.failures ≡ pos 0
    → count fs + 1 ≡ pos_part cb.opts.failure_threshold
    → ((fail_all cb fs).state ≡ circuit_closed)
      × ((on_failure (fail_all cb fs) now later).state ≡ circuit_open)
      × ((on_failure (fail_all cb fs) now later).open_until ≡ add_time later cb.opts.open_duration)
opens_at_threshold cb fs now later v closed none_yet full =
    let before = fail_all-closed fs cb v closed (ground (arith)) in
    let last = fail_once (fail_all cb fs) now later before.3 before.0 in
    let reached : pos_part (fail_all cb fs).failures + 1
        ≡ pos_part (fail_all cb fs).opts.failure_threshold =
      ground (arith, before.1, before.2) in
    (before.0, (last.3 reached).0, ground (arith, (last.3 reached).1, before.2))

-- The calls that an open breaker may see before its time is up.
abbrev pub Early : ℕ → List CircuitCall → Type 0
Early until [] = Unit {0}
Early until (allows now ∷ cs) = (now < until) × Early until cs
Early until (succeeds ∷ cs) = Early until cs
Early until (fails now later ∷ cs) = ⊥

open_allow :
    (cb : CircuitBreaker) (now : ℕ)
    → cb.state ≡ circuit_open
    → now < cb.open_until
    → allow cb now ≡ (cb, false)
unfolding allow
open_allow cb now o h = ground arith

open_success : (cb : CircuitBreaker) → cb.state ≡ circuit_open → on_success cb ≡ cb
unfolding on_success
open_success cb o = ground arith

step_early :
    (cb : CircuitBreaker) (now : ℕ)
    → cb.state ≡ circuit_open
    → now < cb.open_until
    → step cb (allows now) ≡ cb
unfolding step
step_early cb now o h = ap (λ x. x.0) (open_allow cb now o h)

step_success : (cb : CircuitBreaker) → cb.state ≡ circuit_open → step cb succeeds ≡ cb
unfolding step
step_success cb o = open_success cb o

-- Until its time is up an open breaker refuses every call and does not change, whatever calls it
-- sees but further failures (which put the time off).
pub open_refuses :
    (cs : List CircuitCall) (cb : CircuitBreaker) (now : ℕ)
    → cb.state ≡ circuit_open
    → Early cb.open_until cs
    → now < cb.open_until
    → (run cb cs ≡ cb) × (allow (run cb cs) now ≡ (cb, false))
unfolding run
open_refuses [] cb now o e h = (refl, open_allow cb now o h)
open_refuses (allows t ∷ cs) cb now o e h =
    rw (step_early cb t o e.0) (open_refuses cs cb now o e.1 h)
open_refuses (succeeds ∷ cs) cb now o e h = rw (step_success cb o) (open_refuses cs cb now o e h)
open_refuses (fails a b ∷ cs) cb now o e h = absurd e

-- A number of Allow calls at one instant, with no outcome reported in between: how many pass.
unfoldable pub admitted : CircuitBreaker → ℕ → ℕ → ℕ
admitted cb now zero = 0
admitted cb now (suc n) = (if (allow cb now).1 then 1 else 0) + admitted (allow cb now).0 now n

half_open_allow :
    (cb : CircuitBreaker) (now : ℕ)
    → cb.state ≡ circuit_half_open
    → IsConfigured cb.opts
    → pos 0 ≤ℤ cb.half_open_in_flight
    → (cb.half_open_in_flight <ℤ cb.opts.half_open_max_calls
        → allow cb now
          ≡ (record cb { half_open_in_flight = pos (pos_part cb.half_open_in_flight + 1) }, true))
      × (cb.half_open_in_flight ≡ cb.opts.half_open_max_calls → allow cb now ≡ (cb, false))
unfolding allow
half_open_allow cb now s c p = (
  (λ q. ground (arith, add64_nonneg cb.half_open_in_flight (pos 1))),
  (λ q. ground (
    arith,
    nonneg_eq cb.half_open_in_flight p,
    add64_nonneg cb.half_open_in_flight (pos 1),
    add64_pred (pos_part cb.half_open_in_flight),
  )),
)

half_open_admitted :
    (n : ℕ) (cb : CircuitBreaker) (now : ℕ)
    → cb.state ≡ circuit_half_open
    → IsConfigured cb.opts
    → pos 0 ≤ℤ cb.half_open_in_flight
    → cb.half_open_in_flight ≤ℤ cb.opts.half_open_max_calls
    → admitted cb now n
      ≡ min n (pos_part cb.opts.half_open_max_calls - pos_part cb.half_open_in_flight)
unfolding admitted
half_open_admitted zero cb now s c p q = omega arith
half_open_admitted (suc n) cb now s c p q =
    elim (Bool-cases (ltb_ℤ cb.half_open_in_flight cb.opts.half_open_max_calls)) [
      | inl e ↦
          let next : CircuitBreaker = record cb {
            half_open_in_flight = pos (pos_part cb.half_open_in_flight + 1);
          } in
          rw ((half_open_allow cb now s c p).0 (ground arith))
            (ground (arith, half_open_admitted n next now s c))
      | inr e ↦
          rw ((half_open_allow cb now s c p).1 (ground arith))
            (ground (arith, half_open_admitted n cb now s c p q))
    ]

-- Once its time is up an open breaker, of positive options, lets one call through and then, with no outcome reported,
-- as many more as HalfOpenMaxCalls: of `n` calls it admits min(n, HalfOpenMaxCalls + 1). The call
-- that turns it half open is not counted among those in flight.
pub admitted-half_open :
    (cb : CircuitBreaker) (now n : ℕ)
    → cb.state ≡ circuit_open
    → IsConfigured cb.opts
    → cb.open_until ≤ now
    → admitted cb now n ≡ min n (pos_part cb.opts.half_open_max_calls + 1)
unfolding admitted
admitted-half_open cb now zero o c h = omega arith
admitted-half_open cb now (suc n) o c h =
    let probe : CircuitBreaker = record cb {
      state = circuit_half_open;
      half_open_in_flight = pos 0;
    } in
    let first : allow cb now ≡ (probe, true) = unfold allow in ground arith in
    rw first (ground (arith, half_open_admitted n probe now refl c (omega arith)))
