-- ===== src/Store/Outbox/Examples.antt =====
-- A publisher whose pubsub refuses one of two rows.
use distributed_rate_limiter.Base.{ℕ, ◌≡◌, refl, true, not, ◌==◌, List, [], ◌∷◌}
use distributed_rate_limiter.Store.Outbox.{
  new_outbox, insert, pending, fetch_pending, mark_sent, publish_rows, tick,
}
use distributed_rate_limiter.Store.Outbox.Laws.{once}
use distributed_rate_limiter.Store.Outbox.History.{Step, inserts, ticks, step, run, tick-run}

abbrev steps : List (Step ℕ)
steps = inserts 70 ∷ inserts 71 ∷ ticks (λ id. not (id == 1)) ∷ inserts 72 ∷ []

program : Unit {0}
unfolding new_outbox insert pending fetch_pending mark_sent publish_rows tick once step run
program = tt

-- The refused row comes again.
published-again : (tick ℕ (λ _. true) (run ℕ (new_outbox ℕ) steps)).1 ≡ 70 ∷ 72 ∷ []
unfolding program
published-again = refl

tick-run_example :
    ((tick ℕ (λ _. true) (run ℕ (new_outbox ℕ) steps)).0.entries
      ≡ (once ℕ (λ _. true) 100 (run ℕ (new_outbox ℕ) steps).entries).0)
    × ((tick ℕ (λ _. true) (run ℕ (new_outbox ℕ) steps)).1 ≡ 70 ∷ 72 ∷ [])
unfolding program
tick-run_example = tick-run ℕ steps (λ _. true)
