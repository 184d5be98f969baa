-- ===== src/Core/Drain.antt =====
-- drain.go: the tracker of requests in flight, at the grain of its atomic operations. Goroutines
-- differ only in the point that they have reached, so a state counts the goroutines at each point.
pub mod Calls
pub mod Interleavings
pub mod Races
mod Examples
use distributed_rate_limiter.Base.{
  ℕ, zero, suc, ◌+◌, ◌-◌, Bool, true, false, ◌&&◌, Option, none, some, List, [], ◌∷◌, ◌==◌,
  if◌then◌else◌,
}

pub record InFlight : Type 0 where
  -- the fields n and closed, and whether ch is closed
  pub n : ℕ
  pub closed : Bool
  pub ch_closed : Bool
  -- close of a closed channel: the program stops
  pub panicked : Bool
  -- in Begin: past the first test; past Add(1); past the second test, with Add(-1) to come
  pub entering : ℕ
  pub checking : ℕ
  pub backing : ℕ
  -- after a Begin that returned true
  pub running : ℕ
  -- in End, after an Add(-1) that made n zero
  pub ending : ℕ
  -- in Close, after the swap
  pub closing : ℕ

-- NewInFlight
unfoldable pub new_in_flight : InFlight
new_in_flight = record {
  n = 0;
  closed = false;
  ch_closed = false;
  panicked = false;
  entering = 0;
  checking = 0;
  backing = 0;
  running = 0;
  ending = 0;
  closing = 0;
}

-- close(f.ch)
unfoldable pub close_channel : InFlight → InFlight
close_channel s =
    if s.ch_closed then record s { panicked = true } else record s { ch_closed = true }

-- The atomic operations, in the order of Begin, End and Close.
pub data Action : Type 0 where
  begin_load begin_add begin_check begin_undo end_add end_load close_swap close_load : Action

-- One of the goroutines at a point goes on; with none there the action cannot happen.
abbrev one_of : ℕ → (ℕ → InFlight) → Option InFlight
one_of zero f = none
one_of (suc k) f = some (f k)

unfoldable pub fire : Action → InFlight → Option InFlight
unfolding close_channel
fire begin_load s = some (if s.closed then s else record s { entering = suc s.entering })
fire begin_add s =
    one_of s.entering (λ k. record s { entering = k; checking = suc s.checking; n = s.n + 1 })
fire begin_check s = one_of s.checking (λ k.
    if s.closed
    then record s { checking = k; backing = suc s.backing }
    else record s { checking = k; running = suc s.running })
fire begin_undo s = one_of s.backing (λ k. record s { backing = k; n = s.n - 1 })
fire end_add s = one_of s.running (λ k.
    if (s.n - 1) == 0
    then record s { running = k; n = s.n - 1; ending = suc s.ending }
    else record s { running = k; n = s.n - 1 })
fire end_load s =
    one_of s.ending
      (λ k. if s.closed then close_channel (record s { ending = k }) else record s { ending = k })
fire close_swap s =
    some (if s.closed then s else record s { closed = true; closing = suc s.closing })
fire close_load s =
    one_of s.closing
      (λ k. if s.n == 0 then close_channel (record s { closing = k }) else record s { closing = k })

-- A schedule; `none` where an action cannot happen.
abbrev then_run : (InFlight → Option InFlight) → Option InFlight → Option InFlight
then_run f none = none
then_run f (some s) = f s

unfoldable pub run : List Action → InFlight → Option InFlight
run [] s = some s
run (a ∷ acts) s = then_run (run acts) (fire a s)

-- Begin, End and Close, each without interruption.
unfoldable pub begin : InFlight → InFlight × Bool
begin s = if s.closed then (s, false) else (record s { n = s.n + 1; running = suc s.running }, true)

unfoldable pub end_request : InFlight → InFlight
unfolding close_channel
end_request s =
    let after = record s { n = s.n - 1; running = s.running - 1 } in
    if (s.n - 1) == 0 && s.closed then close_channel after else after

unfoldable pub close : InFlight → InFlight
unfolding close_channel
close s =
    if s.closed
    then s
    else (let after = record s { closed = true } in if s.n == 0 then close_channel after else after)
