-- ===== src/Core/Pool.antt =====
-- limiterpool.go: one shard of the pool, with its entries in a heap. A pointer to an entry is an
-- address, and a handle its position among the handles that were given out. What is under the
-- shard's mutex is one step; so is Release. The goroutines that wait to close an entry are the
-- addresses in `waiting`: one of them can go on while no handle is open, or at its timeout, and the
-- schedule says whether it does. It sleeps on the entry's condition variable while it finds a handle
-- open, until a Release or its timer wakes it. The pause of Cutover for the QuiesceWindow is left
-- out, as any other time that passes.
pub mod Sharded
pub mod Counts
pub mod Keyed
pub mod Invariant
pub mod Operations
pub mod History
pub mod Calm
pub mod Draining
mod Examples
use distributed_rate_limiter.Base.{
  ℕ, zero, suc, ◌+◌, ◌-◌, Bool, true, false, not, ◌&&◌, ◌||◌, ◌==◌, if◌then◌else◌, Option, none,
  some, List, [], ◌∷◌, ◌++◌, length, get_elem?,
}
use distributed_rate_limiter.Base.Str.{Str}
use distributed_rate_limiter.Base.Assoc.{Assoc, lookup, insert, remove}
use distributed_rate_limiter.Core.Limiter.{RedisLimiter}
use distributed_rate_limiter.Core.Lru.{LruKeys, add, touch, evict_if_needed}
use distributed_rate_limiter.Core.Lru
use distributed_rate_limiter.Core.Models.{Result, ok, err}

pub data LimiterEntryState : Type 0 where
  entry_active entry_quiescing entry_closed : LimiterEntryState

-- `close_calls` counts the calls of the limiter's Close, and `asleep` says that the goroutine that
-- waits to close the entry sleeps on its condition variable.
pub record LimiterEntry : Type 0 where
  pub lim : RedisLimiter
  pub state : LimiterEntryState
  pub refs : ℕ
  pub close_calls : ℕ
  pub asleep : Bool

pub record LimiterHandle : Type 0 where
  pub entry : ℕ
  pub released : Bool

pub record LimiterPoolShard : Type 0 where
  pub m : Assoc ℕ
  pub lru : LruKeys
  pub next : ℕ
  pub cell : ℕ → Option LimiterEntry
  pub handles : List LimiterHandle
  pub waiting : List ℕ

abbrev pub is_active : LimiterEntryState → Bool
is_active entry_active = true
is_active entry_quiescing = false
is_active entry_closed = false

abbrev pub is_quiescing : LimiterEntryState → Bool
is_quiescing entry_quiescing = true
is_quiescing entry_active = false
is_quiescing entry_closed = false

abbrev pub is_closed : LimiterEntryState → Bool
is_closed entry_closed = true
is_closed entry_active = false
is_closed entry_quiescing = false

abbrev pub store : ℕ → LimiterEntry → (ℕ → Option LimiterEntry) → ℕ → Option LimiterEntry
store p e cell q = if p == q then some e else cell q

-- The entry that the map has for a key, with its address.
unfoldable pub entry_for : Str → LimiterPoolShard → Option (ℕ × LimiterEntry)
entry_for key s = elim (lookup key s.m) [
  | none ↦ none
  | some p ↦ elim (s.cell p) [ none ↦ none | some e ↦ some (p, e) ]
]

-- closeLimiter
abbrev pub close_limiter : LimiterEntry → LimiterEntry
close_limiter e =
    if is_closed e.state
    then e
    else record e { state = entry_closed; close_calls = e.close_calls + 1 }

abbrev pub quiesce : LimiterEntry → LimiterEntry
quiesce e = record e { state = entry_quiescing }

-- One evicted key, in evictIfNeededLocked.
unfoldable pub drop_key : Str → LimiterPoolShard → LimiterPoolShard
unfolding entry_for
drop_key key s = elim (entry_for key s) [
  | none ↦ s
  | some (p, e) ↦
      if e.refs == 0
      then record s { m = remove key s.m; cell = store p (close_limiter e) s.cell }
      else record s {
        m = remove key s.m;
        cell = store p (quiesce e) s.cell;
        waiting = p ∷ s.waiting;
      }
]

unfoldable pub drop_all : List Str → LimiterPoolShard → LimiterPoolShard
unfolding drop_key
drop_all [] s = s
drop_all (key ∷ keys) s = drop_all keys (drop_key key s)

unfoldable pub evict : LimiterPoolShard → LimiterPoolShard
unfolding drop_all
evict s = let (lru, evicted) = evict_if_needed s.lru in drop_all evicted (record s { lru = lru })

abbrev pub handle_on : ℕ → LimiterHandle
handle_on p = record { entry = p; released = false }

-- A new entry, from the factory's answer.
unfoldable pub create_entry :
    Str → Result RedisLimiter → LimiterPoolShard → LimiterPoolShard × Result ℕ
unfolding evict
create_entry key (err e) s = (s, err e)
create_entry key (ok lim) s = (
  evict (record {
    m = insert key s.next s.m;
    lru = add key s.lru;
    next = s.next + 1;
    cell =
        store s.next
          (record { lim = lim; state = entry_active; refs = 1; close_calls = 0; asleep = false })
          s.cell;
    handles = s.handles ++ handle_on s.next ∷ [];
    waiting = s.waiting;
  }),
  ok (length s.handles),
)

-- Acquire, on the shard of the key and for the limiter that the factory would make. The result is
-- the new handle.
unfoldable pub acquire : Str → Result RedisLimiter → LimiterPoolShard → LimiterPoolShard × Result ℕ
unfolding entry_for create_entry
acquire key made s = elim (entry_for key s) [
  | none ↦ create_entry key made s
  | some (p, e) ↦
      if is_active e.state
      then (
        record s {
          lru = touch key s.lru;
          cell = store p (record e { refs = e.refs + 1 }) s.cell;
          handles = s.handles ++ handle_on p ∷ [];
        },
        ok (length s.handles),
      )
      else create_entry key made s
]

unfoldable pub mark_released : ℕ → List LimiterHandle → List LimiterHandle
mark_released h [] = []
mark_released zero (x ∷ hs) = record x { released = true } ∷ hs
mark_released (suc h) (x ∷ hs) = x ∷ mark_released h hs

-- One reference less, and the Broadcast where it was the last one of a quiescing entry.
abbrev pub drop_ref : LimiterEntry → LimiterEntry
drop_ref e = record e {
  refs = e.refs - 1;
  asleep = if e.refs - 1 == 0 && is_quiescing e.state then false else e.asleep;
}

abbrev pub unpin : ℕ → LimiterPoolShard → ℕ → Option LimiterEntry
unpin p s = elim (s.cell p) [ none ↦ s.cell | some e ↦ store p (drop_ref e) s.cell ]

-- Release, which works once for each handle. A count below zero is set back to zero.
unfoldable pub release : ℕ → LimiterPoolShard → LimiterPoolShard
unfolding mark_released
release h s = elim (get_elem? s.handles h) [
  | none ↦ s
  | some x ↦
      if x.released
      then s
      else record s { handles = mark_released h s.handles; cell = unpin x.entry s }
]

-- Cutover, up to its wait.
unfoldable pub cutover : Str → LimiterPoolShard → LimiterPoolShard
unfolding entry_for
cutover key s = elim (entry_for key s) [
  | none ↦ s
  | some (p, e) ↦ record s {
    m = remove key s.m;
    lru = Lru.remove key s.lru;
    cell = store p (quiesce e) s.cell;
    waiting = p ∷ s.waiting;
  }
]

unfoldable pub waits : ℕ → List ℕ → Bool
waits p [] = false
waits p (q ∷ qs) = p == q || waits p qs

unfoldable pub no_longer : ℕ → List ℕ → List ℕ
no_longer p [] = []
no_longer p (q ∷ qs) = if p == q then qs else q ∷ no_longer p qs

-- What a waiter does after its wait: on its own, when it is awake and finds no reference, or at the
-- timeout (`late`), whose timer wakes it.
unfoldable pub close_waited : Bool → ℕ → LimiterPoolShard → Option LimiterPoolShard
unfolding waits no_longer
close_waited late p s =
    if waits p s.waiting
    then elim (s.cell p) [
      | none ↦ none
      | some e ↦
          if late || (not e.asleep && e.refs == 0)
          then some (record s {
            cell = store p (close_limiter (record e { asleep = false })) s.cell;
            waiting = no_longer p s.waiting;
          })
          else none
    ]
    else none

-- A waiter that finds a reference goes to sleep.
unfoldable pub sleep : ℕ → LimiterPoolShard → Option LimiterPoolShard
unfolding waits
sleep p s =
    if waits p s.waiting
    then elim (s.cell p) [
      | none ↦ none
      | some e ↦
          if e.refs == 0
          then none
          else some (record s { cell = store p (record e { asleep = true }) s.cell })
    ]
    else none
