-- ===== src/Core/Drain/Races.antt =====
-- Two orders of the atomic operations in which the tracker fails.
use distributed_rate_limiter.Base.{◌-◌, ◌≡◌, refl, arith, true, false, List, [], ◌∷◌, some}
use distributed_rate_limiter.Core.Drain.{
  InFlight, Action, begin_load, begin_add, begin_check, end_add, end_load, close_swap, close_load,
  fire, run, close_channel,
}

-- One request is in flight, and nobody is inside Begin, End or Close but before its first effect.
pub record OneInFlight (s : InFlight) : Type 0 where
  pub open_yet : s.closed ≡ false
  pub not_signalled : s.ch_closed ≡ false
  pub one : s.n ≡ 1
  pub runs : s.running ≡ 1
  pub nobody_checks : s.checking ≡ 0
  pub nobody_ends : s.ending ≡ 0
  pub nobody_closes : s.closing ≡ 0

abbrev pub double_close : List Action
double_close = close_swap ∷ end_add ∷ close_load ∷ end_load ∷ []

-- With one request in flight: if its End brings the count to zero between the swap and the load of
-- Close, both close the channel, and the program panics.
pub run-double_close :
    (s : InFlight)
    → OneInFlight s
    → (t : InFlight) × (run double_close s ≡ some t) × (t.panicked ≡ true)
unfolding run fire close_channel
run-double_close s o = (
  record s {
    closed = true;
    n = s.n - 1;
    running = 0;
    ending = 0;
    closing = 0;
    ch_closed = true;
    panicked = true;
  },
  ground arith,
  refl,
)

abbrev pub early_close : List Action
early_close =
    end_add ∷ begin_load ∷ begin_add ∷ begin_check ∷ close_swap ∷ close_load ∷ end_load ∷ []

-- With one request in flight: if its End has brought the count to zero, a new request starts and
-- Close is called before that End looks at the flag, then the channel is closed while the new
-- request is still running.
pub run-early_close :
    (s : InFlight)
    → OneInFlight s
    → (t : InFlight) × (run early_close s ≡ some t)
      × (t.ch_closed ≡ true)
      × (t.running ≡ 1)
      × (t.n ≡ 1)
unfolding run fire close_channel
run-early_close s o = (
  record s {
    closed = true;
    n = 1;
    running = 1;
    checking = 0;
    ending = 0;
    closing = 0;
    ch_closed = true;
  },
  ground arith,
  refl,
  refl,
  refl,
)
