-- ===== src/Core/Drain/Interleavings.antt =====
-- What holds, and what goes wrong, where the atomic operations of several calls interleave.
use distributed_rate_limiter.Base.{
  ◌+◌, ◌≤◌, ◌<◌, ◌≡◌, arith, true, List, [], ◌∷◌, some, Option-cases, inl, inr,
}
use distributed_rate_limiter.Core.Drain.{
  InFlight, Action, begin_load, begin_add, begin_check, begin_undo, end_add, end_load, close_swap,
  close_load, fire, run,
}

pub record Inv (s : InFlight) : Type 0 where
  pub counted : s.n ≡ s.checking + s.backing + s.running
  pub closed_first : s.ch_closed ≡ true → s.closed ≡ true
  pub closers : s.closing ≤ 1
  pub closer_last : 0 < s.closing → s.closed ≡ true

fire-Inv : (a : Action) (s t : InFlight) → Inv s → fire a s ≡ some t → Inv t
unfolding fire
fire-Inv begin_load s t v h = ground arith
fire-Inv begin_add s t v h = ground arith
fire-Inv begin_check s t v h = ground arith
fire-Inv begin_undo s t v h = ground arith
fire-Inv end_add s t v h = ground arith
fire-Inv end_load s t v h = ground arith
fire-Inv close_swap s t v h = ground arith
fire-Inv close_load s t v h = ground arith

-- What one action may do once the tracker is closed: it stays closed and no request starts.
fire-closed :
    (a : Action) (s t : InFlight)
    → s.closed ≡ true
    → fire a s ≡ some t
    → (t.closed ≡ true) × (t.running ≤ s.running)
unfolding fire
fire-closed begin_load s t c h = ground arith
fire-closed begin_add s t c h = ground arith
fire-closed begin_check s t c h = ground arith
fire-closed begin_undo s t c h = ground arith
fire-closed end_add s t c h = ground arith
fire-closed end_load s t c h = ground arith
fire-closed close_swap s t c h = ground arith
fire-closed close_load s t c h = ground arith

-- The count of a reachable state is that of the goroutines between their Add(1) and their Add(-1),
-- and the channel is closed only after Close was called.
pub run-Inv : (acts : List Action) (s t : InFlight) → Inv s → run acts s ≡ some t → Inv t
unfolding run
run-Inv [] s t v h = ground arith
run-Inv (a ∷ acts) s t v h = elim (Option-cases (fire a s)) [
  | inl e ↦ absurd (ground arith)
  | inr (u, e) ↦ run-Inv acts u t (fire-Inv a s u v e) (ground arith)
]

-- In every interleaving from any state of a closed tracker: once the swap of Close is done, the tracker stays closed and no further
-- request starts.
pub run-closed :
    (acts : List Action) (s t : InFlight)
    → s.closed ≡ true
    → run acts s ≡ some t
    → (t.closed ≡ true) × (t.running ≤ s.running)
unfolding run
run-closed [] s t c h = ground arith
run-closed (a ∷ acts) s t c h = elim (Option-cases (fire a s)) [
  | inl e ↦ absurd (ground arith)
  | inr (u, e) ↦
      let first = fire-closed a s u c e in
      let later = run-closed acts u t first.0 (ground arith) in
      (later.0, omega (arith, first.1, later.1))
]
