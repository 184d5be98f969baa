-- ===== src/Core/Drain/Examples.antt =====
-- The tracker at concrete calls and schedules.
use distributed_rate_limiter.Base.{◌≡◌, refl, true, false, arith, some, List, [], ◌∷◌}
use distributed_rate_limiter.Core.Drain.{
  InFlight, new_in_flight, Action, begin_load, begin_add, begin_check, run, begin, end_request,
  close,
}
use distributed_rate_limiter.Core.Drain.Calls.{
  begins, ends, closes, call, call_all, Drains, call_all-new-Drains,
}
use distributed_rate_limiter.Core.Drain.Races.{
  OneInFlight, double_close, run-double_close, early_close, run-early_close,
}

abbrev busy : InFlight
busy = record {
  n = 1;
  closed = false;
  ch_closed = false;
  panicked = false;
  entering = 0;
  checking = 0;
  backing = 0;
  running = 1;
  ending = 0;
  closing = 0;
}

busy-OneInFlight : OneInFlight busy
busy-OneInFlight = record {
  open_yet = refl;
  not_signalled = refl;
  one = refl;
  runs = refl;
  nobody_checks = refl;
  nobody_ends = refl;
  nobody_closes = refl;
}

call_all-new-Drains_example : Drains (call_all (begins ∷ closes ∷ ends ∷ []) new_in_flight)
unfolding call begin end_request close new_in_flight
call_all-new-Drains_example = call_all-new-Drains (begins ∷ closes ∷ ends ∷ []) (omega arith, tt)

abbrev late : List Action
late = begin_load ∷ begin_add ∷ begin_check ∷ []

abbrev late_start : InFlight
late_start = record busy { closed = true; entering = 1 }

abbrev late_end : InFlight
late_end = record busy { closed = true; backing = 1; n = 2 }

run-double_close_example : (t : InFlight) × (run double_close busy ≡ some t) × (t.panicked ≡ true)
run-double_close_example = run-double_close busy busy-OneInFlight

run-early_close_example :
    (t : InFlight) × (run early_close busy ≡ some t)
    × (t.ch_closed ≡ true)
    × (t.running ≡ 1)
    × (t.n ≡ 1)
run-early_close_example = run-early_close busy busy-OneInFlight
