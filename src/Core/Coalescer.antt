-- ===== src/Core/Coalescer.antt =====
-- coalescer.go: one shard, with its callers. An entry is an address in a heap; its `done` channel is
-- closed when it has a result. Each action is what a caller does between two points at which others
-- can come in between. What `fn` returns is an argument of the action that ends it.
pub mod Laws
mod Steps
pub mod History
mod Examples
use distributed_rate_limiter.Base.{
  ℕ, zero, suc, ◌+◌, ◌%◌, Bool, true, false, ◌==◌, leb, if◌then◌else◌, Option, none, some, List, [],
  ◌∷◌,
}
use distributed_rate_limiter.Base.Int.{ℤ, pos, leb_ℤ}
use distributed_rate_limiter.Base.Str.{Str}
use distributed_rate_limiter.Base.Assoc.{Assoc, lookup, insert, remove}
use distributed_rate_limiter.Base.Fnv.{fnv32a}
use distributed_rate_limiter.Core.Clock.{sub_time, milliseconds}
use distributed_rate_limiter.Core.Models.{Decision, Error, context_done}

-- What Do and its function return.
abbrev pub Answer : Type 0
Answer = Option Decision × Option Error

pub record Coalesced : Type 0 where
  pub created : ℕ
  pub result : Option Answer

-- Where a caller of Do stands: before the call, in its function for an entry, with its result set
-- and the entry still in the map, waiting for an entry, or after the return, from an entry or given
-- up.
pub data Caller : Type 0 where
  outside : Caller
  leading : Str → ℕ → Caller
  leaving : Str → ℕ → Answer → Caller
  waiting : ℕ → Caller
  returned : ℕ → Answer → Caller
  gave_up : Answer → Caller

pub record CoalescerShard : Type 0 where
  pub m : Assoc ℕ
  pub next : ℕ
  pub cell : ℕ → Option Coalesced
  pub caller : ℕ → Caller

abbrev or_default : ℤ → ℤ → ℤ
or_default x d = if leb_ℤ x (pos 0) then d else x

-- NewCoalescer: the number of shards and the time to live.
unfoldable pub new_coalescer : ℤ → ℤ → ℤ × ℤ
new_coalescer shards ttl = (or_default shards (pos 64), or_default ttl (milliseconds 10))

-- coalescerShardIndex, for a number of shards that fits 32 bits.
unfoldable pub coalescer_shard_index : Str → ℕ → ℕ
coalescer_shard_index key total = if leb total 1 then 0 else fnv32a key % total

abbrev pub new_coalescer_shard : CoalescerShard
new_coalescer_shard = record { m = []; next = 0; cell = λ p. none; caller = λ c. outside }

abbrev pub at_point : ℕ → Caller → (ℕ → Caller) → ℕ → Caller
at_point c x callers d = if c == d then x else callers d

abbrev pub put_entry : ℕ → Coalesced → (ℕ → Option Coalesced) → ℕ → Option Coalesced
put_entry p e cell q = if p == q then some e else cell q

-- The entry that a call at `now` may wait for.
unfoldable pub joinable : ℤ → Str → ℕ → CoalescerShard → Option ℕ
joinable ttl key now s = elim (lookup key s.m) [
  | none ↦ none
  | some p ↦ elim (s.cell p) [
    | none ↦ none
    | some e ↦ if leb_ℤ (sub_time now e.created) ttl then some p else none
  ]
]

-- The part of Do under the first lock.
unfoldable pub enter : ℤ → ℕ → Str → ℕ → CoalescerShard → CoalescerShard
unfolding joinable
enter ttl c key now s = elim (joinable ttl key now s) [
  | some p ↦ record s { caller = at_point c (waiting p) s.caller }
  | none ↦ record s {
    m = insert key s.next s.m;
    next = s.next + 1;
    cell = put_entry s.next (record { created = now; result = none }) s.cell;
    caller = at_point c (leading key s.next) s.caller;
  }
]

-- The function has returned: the result is set and `done` is closed.
abbrev pub set_result : ℕ → Answer → (ℕ → Option Coalesced) → ℕ → Option Coalesced
set_result p a cell = elim (cell p) [
  | none ↦ cell
  | some e ↦ put_entry p (record e { result = some a }) cell
]

-- The entry leaves the map if it is still the current one.
abbrev pub forget : Str → ℕ → Assoc ℕ → Assoc ℕ
forget key p m = elim (lookup key m) [ none ↦ m | some q ↦ if q == p then remove key m else m ]

pub data Action : Type 0 where
  enters : Str → ℕ → Action
  finishes : Answer → Action
  leaves wakes cancels : Action

-- The result of an entry that is done.
abbrev pub result_of : Option Coalesced → Option Answer
result_of none = none
result_of (some e) = e.result

-- An action of the caller `c` at its point; `none` where it cannot happen there.
abbrev pub act : ℤ → ℕ → Action → Caller → CoalescerShard → Option CoalescerShard
act ttl c (enters key now) outside s = some (enter ttl c key now s)
act ttl c (finishes a) (leading key p) s =
    some (record s { cell = set_result p a s.cell; caller = at_point c (leaving key p a) s.caller })
act ttl c leaves (leaving key p a) s =
    some (record s { m = forget key p s.m; caller = at_point c (returned p a) s.caller })
act ttl c wakes (waiting p) s = elim (result_of (s.cell p)) [
  | none ↦ none
  | some a ↦ some (record s { caller = at_point c (returned p a) s.caller })
]
act ttl c cancels (waiting p) s =
    some (record s { caller = at_point c (gave_up (none, some context_done)) s.caller })
act _ _ _ _ _ = none

abbrev pub then_run :
    (CoalescerShard → Option CoalescerShard) → Option CoalescerShard → Option CoalescerShard
then_run f none = none
then_run f (some s) = f s

-- A schedule: which caller does what.
unfoldable pub run : ℤ → List (ℕ × Action) → CoalescerShard → Option CoalescerShard
unfolding enter
run ttl [] s = some s
run ttl ((c, a) ∷ rest) s = then_run (run ttl rest) (act ttl c a (s.caller c) s)
