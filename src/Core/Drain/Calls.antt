-- ===== src/Core/Drain/Calls.antt =====
-- Whole calls of Begin, End and Close, one after the other.
use distributed_rate_limiter.Base.{◌<◌, ◌≡◌, refl, arith, false, ◌&&◌, ◌==◌, List, [], ◌∷◌}
use distributed_rate_limiter.Core.Drain.{InFlight, new_in_flight, begin, end_request, close}

pub data Call : Type 0 where
  begins ends closes : Call

unfoldable pub call : Call → InFlight → InFlight
call begins s = (begin s).0
call ends s = end_request s
call closes s = close s

-- Every End belongs to a Begin that has returned true.
abbrev pub Matched : List Call → InFlight → Type 0
Matched [] s = Unit {0}
Matched (begins ∷ cs) s = Matched cs (call begins s)
Matched (ends ∷ cs) s = (0 < s.running) × Matched cs (call ends s)
Matched (closes ∷ cs) s = Matched cs (call closes s)

unfoldable pub call_all : List Call → InFlight → InFlight
call_all [] s = s
call_all (c ∷ cs) s = call_all cs (call c s)

-- The channel is closed exactly when the tracker is closed and no request is in flight.
pub record Drains (s : InFlight) : Type 0 where
  pub counted : s.n ≡ s.running
  pub signalled : s.ch_closed ≡ (s.closed && (s.n == 0))
  pub sound : s.panicked ≡ false

call-Drains : (c : Call) (s : InFlight) → (c ≡ ends → 0 < s.running) → Drains s → Drains (call c s)
unfolding call begin end_request close
call-Drains begins s m d = ground arith
call-Drains ends s m d = ground (arith, m refl)
call-Drains closes s m d = ground arith

call_all-Drains : (cs : List Call) (s : InFlight) → Matched cs s → Drains s → Drains (call_all cs s)
unfolding call_all
call_all-Drains [] s m d = d
call_all-Drains (begins ∷ cs) s m d =
    call_all-Drains cs (call begins s) m (call-Drains begins s (λ e. cc) d)
call_all-Drains (ends ∷ cs) s m d =
    call_all-Drains cs (call ends s) m.1 (call-Drains ends s (λ e. m.0) d)
call_all-Drains (closes ∷ cs) s m d =
    call_all-Drains cs (call closes s) m (call-Drains closes s (λ e. cc) d)

-- As long as calls do not overlap and every End belongs to a Begin: after any sequence of them the
-- channel is closed exactly if Close was called and no request is in flight, and it is never
-- closed twice.
pub call_all-new-Drains :
    (cs : List Call) → Matched cs new_in_flight → Drains (call_all cs new_in_flight)
unfolding new_in_flight
call_all-new-Drains cs m =
    call_all-Drains cs new_in_flight m (record { counted = refl; signalled = refl; sound = refl })
