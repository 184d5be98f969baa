-- ===== src/Core/Coalescer/Laws.antt =====
-- All callers that share an entry get the answer of its one function call.
use distributed_rate_limiter.Base.{
  ℕ, ◌+◌, ◌≤◌, ◌<◌, ◌≡◌, arith, Bool, true, false, ◌==◌, Option, none, some,
}
use distributed_rate_limiter.Base.Assoc.{lookup}
use distributed_rate_limiter.Base.Str.{Str}
use distributed_rate_limiter.Core.Coalescer.{
  Answer, Coalesced, Caller, outside, leading, leaving, waiting, returned, gave_up, CoalescerShard,
  put_entry, result_of,
}

-- What holds of a caller at its point, over the heap.
abbrev pub Placed : ℕ → (ℕ → Option Coalesced) → Caller → Type 0
Placed next cell outside = Unit {0}
Placed next cell (leading key p) = (p < next) × (result_of (cell p) ≡ none)
Placed next cell (leaving key p a) = (p < next) × (result_of (cell p) ≡ some a)
Placed next cell (waiting p) = p < next
Placed next cell (returned p a) = (p < next) × (result_of (cell p) ≡ some a)
Placed next cell (gave_up a) = Unit {0}

-- The caller runs the function for the entry.
abbrev pub leads : ℕ → Caller → Bool
leads p outside = false
leads p (leading key q) = p == q
leads p (leaving key q a) = p == q
leads p (waiting q) = false
leads p (returned q a) = false
leads p (gave_up a) = false

-- The caller is in its call of the function for the entry.
abbrev pub calls : ℕ → Caller → Bool
calls p outside = false
calls p (leading key q) = p == q
calls p (leaving key q a) = false
calls p (waiting q) = false
calls p (returned q a) = false
calls p (gave_up a) = false

pub calls-leads : (p : ℕ) (x : Caller) → calls p x ≡ true → leads p x ≡ true
calls-leads p outside h = h
calls-leads p (leading key q) h = h
calls-leads p (leaving key q a) h = ground (arith, h)
calls-leads p (waiting q) h = h
calls-leads p (returned q a) h = h
calls-leads p (gave_up a) h = h

pub record Inv (s : CoalescerShard) : Type 0 where
  pub known : (k : Str) (p : ℕ) → lookup k s.m ≡ some p → p < s.next
  pub free : (p : ℕ) → s.next ≤ p → s.cell p ≡ none
  pub made : (p : ℕ) → p < s.next → (e : Coalesced) × (s.cell p ≡ some e)
  pub placed : (c : ℕ) → Placed s.next s.cell (s.caller c)
  pub one_leader : (c d p : ℕ) → leads p (s.caller c) ≡ true → leads p (s.caller d) ≡ true → c ≡ d
  pub led :
      (p : ℕ) → p < s.next → result_of (s.cell p) ≡ none → (c : ℕ) × (calls p (s.caller c) ≡ true)

-- Placement outlives a heap that has more entries, and the same results of those that are done.
pub grow :
    (next : ℕ) (cell : ℕ → Option Coalesced) (e : Coalesced) (x : Caller)
    → Placed next cell x
    → Placed (next + 1) (put_entry next e cell) x
grow next cell e outside h = tt
grow next cell e (leading key p) h = ground (arith, h.0, h.1)
grow next cell e (leaving key p a) h = ground (arith, h.0, h.1)
grow next cell e (waiting p) h = omega (arith, h)
grow next cell e (returned p a) h = ground (arith, h.0, h.1)
grow next cell e (gave_up a) h = tt

-- An entry without a result gets one, and no one else leads it.
pub answer :
    (next p : ℕ) (a : Answer) (cell : ℕ → Option Coalesced) (e : Coalesced) (x : Caller)
    → cell p ≡ some e
    → e.result ≡ none
    → leads p x ≡ false
    → Placed next cell x
    → Placed next (put_entry p (record e { result = some a }) cell) x
answer next p a cell e outside at open_yet n h = tt
answer next p a cell e (leading key q) at open_yet n h = (h.0, ground (arith, h.1, n))
answer next p a cell e (leaving key q b) at open_yet n h = (h.0, ground (arith, h.1, n))
answer next p a cell e (waiting q) at open_yet n h = h
answer next p a cell e (returned q b) at open_yet n h = (h.0, ground (arith, h.1, at, open_yet))
answer next p a cell e (gave_up b) at open_yet n h = tt
