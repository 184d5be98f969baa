-- ===== src/Core/Coalescer/Examples.antt =====
-- Three callers of one key: the first calls its function, the second joins it, and the third comes
-- when the entry has left the map.
use distributed_rate_limiter.Base.{ℕ, ◌≡◌, refl, true, none, some, List, [], ◌∷◌, ◌⊎◌}
use distributed_rate_limiter.Base.Assoc.{lookup, insert, remove}
use distributed_rate_limiter.Base.Int.{pos}
use distributed_rate_limiter.Base.Str.{bytes, str_eq}
use distributed_rate_limiter.Core.Clock.{milliseconds, sub_time}
use distributed_rate_limiter.Core.Models.{Decision}
use distributed_rate_limiter.Core.Coalescer.{
  Answer, leading, CoalescerShard, new_coalescer_shard, joinable, enter, Action, enters, finishes,
  leaves, wakes, result_of, run, new_coalescer, coalescer_shard_index,
}
use distributed_rate_limiter.Core.Coalescer.Laws.{calls}
use distributed_rate_limiter.Core.Coalescer.History.{shared_answer, waiting-led}

abbrev yes_decision : Decision
yes_decision = record {
  allowed = true;
  remaining = pos 9;
  limit = pos 10;
  reset_after = pos 1000;
  retry_after = pos 0;
}

abbrev answer : Answer
answer = (some yes_decision, none)

abbrev joined : List (ℕ × Action)
joined = (0, enters (bytes "k") 5) ∷ (1, enters (bytes "k") 7) ∷ []

abbrev all_back : List (ℕ × Action)
all_back =
    (0, enters (bytes "k") 5)
    ∷ (1, enters (bytes "k") 7)
    ∷ (0, finishes answer)
    ∷ (0, leaves)
    ∷ (2, enters (bytes "k") 8)
    ∷ (1, wakes)
    ∷ []

abbrev state_after : List (ℕ × Action) → CoalescerShard
unfolding run
state_after xs = elim (run (milliseconds 10) xs new_coalescer_shard) [
  | none ↦ new_coalescer_shard
  | some t ↦ t
]

-- The late caller has an entry of its own.
late_caller : (state_after all_back).caller 2 ≡ leading (bytes "k") 1
unfolding run enter joinable lookup insert remove str_eq sub_time
late_caller = refl

shared_answer_example : answer ≡ answer
unfolding run enter joinable lookup insert remove str_eq sub_time
shared_answer_example =
    shared_answer (milliseconds 10) all_back (state_after all_back) refl 0 1 0 answer answer refl
      refl

waiting-led_example :
    ((a : Answer) × (result_of ((state_after joined).cell 0) ≡ some a))
    ⊎ ((c : ℕ) × (calls 0 ((state_after joined).caller c) ≡ true)
        × ((e : ℕ) → calls 0 ((state_after joined).caller e) ≡ true → c ≡ e))
unfolding run enter joinable lookup insert remove str_eq sub_time
waiting-led_example = waiting-led (milliseconds 10) joined (state_after joined) refl 1 0 refl

new_coalescer_defaults : new_coalescer (pos 0) (pos 0) ≡ (pos 64, milliseconds 10)
unfolding new_coalescer
new_coalescer_defaults = refl

one_coalescer_shard : coalescer_shard_index (bytes "k") 1 ≡ 0
unfolding coalescer_shard_index
one_coalescer_shard = refl
