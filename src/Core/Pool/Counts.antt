-- ===== src/Core/Pool/Counts.antt =====
-- The heap of entries: each count of references is that of the open handles.
use distributed_rate_limiter.Base.{
  ℕ, zero, suc, ◌+◌, ◌≤◌, ◌<◌, ◌≡◌, ◌≢◌, refl, arith, true, false, not, ◌&&◌, ◌==◌, if◌then◌else◌,
  Option, none, some, List, [], ◌∷◌, ◌++◌, get_elem?, Bool-cases, inl, inr,
}
use distributed_rate_limiter.Core.Pool.{
  entry_active, entry_closed, LimiterEntry, LimiterHandle, is_active, is_closed, is_quiescing,
  quiesce, store, handle_on, mark_released, waits, no_longer,
}

-- The open handles on an entry.
unfoldable pub pins : ℕ → List LimiterHandle → ℕ
pins p [] = 0
pins p (h ∷ hs) = (if h.entry == p && not h.released then 1 else 0) + pins p hs

pub pins-append :
    (p q : ℕ) (hs : List LimiterHandle)
    → pins p (hs ++ handle_on q ∷ []) ≡ pins p hs + (if q == p then 1 else 0)
unfolding pins
pins-append p q [] = ground arith
pins-append p q (h ∷ hs) = ground (arith, pins-append p q hs)

-- Marking an open handle takes one from the count of its entry.
pub pins-mark_released :
    (p i : ℕ) (h : LimiterHandle) (hs : List LimiterHandle)
    → get_elem? hs i ≡ some h
    → h.released ≡ false
    → pins p (mark_released i hs) + (if h.entry == p then 1 else 0) ≡ pins p hs
unfolding pins mark_released
pins-mark_released p i h [] e o = ground arith
pins-mark_released p zero h (x ∷ hs) e o = ground arith
pins-mark_released p (suc i) h (x ∷ hs) e o = ground (arith, pins-mark_released p i h hs e o)

-- The waiting goroutines of an entry.
unfoldable pub waiters : ℕ → List ℕ → ℕ
waiters p [] = 0
waiters p (q ∷ qs) = (if p == q then 1 else 0) + waiters p qs

waiters-waits : (p : ℕ) (ws : List ℕ) → waits p ws ≡ true → 0 < waiters p ws
unfolding waiters waits
waiters-waits p [] h = absurd (ground (arith, h))
waiters-waits p (w ∷ ws) h = ground (arith, h, waiters-waits p ws)

waiters-no_longer :
    (p q : ℕ) (ws : List ℕ)
    → 0 < waiters p ws
    → waiters q (no_longer p ws) + (if q == p then 1 else 0) ≡ waiters q ws
unfolding waiters no_longer
waiters-no_longer p q [] h = absurd (omega arith)
waiters-no_longer p q (w ∷ ws) h = ground (arith, h, waiters-no_longer p q ws)

-- The parts of a shard behind its map: the heap, the handles and the waiting goroutines.
pub record Counts (next : ℕ) (cell : ℕ → Option LimiterEntry) (hs : List LimiterHandle)
    (ws : List ℕ) : Type 0 where
  pub fresh_cell : (p : ℕ) → next ≤ p → cell p ≡ none
  pub unpinned : (p : ℕ) → cell p ≡ none → pins p hs ≡ 0
  pub counted : (p : ℕ) (e : LimiterEntry) → cell p ≡ some e → e.refs ≡ pins p hs
  pub close_once :
      (p : ℕ) (e : LimiterEntry)
      → cell p ≡ some e
      → e.close_calls ≡ (if is_closed e.state then 1 else 0)
  pub waited :
      (p : ℕ)
      → waits p ws ≡ true
      → (e : LimiterEntry) × (cell p ≡ some e) × (is_active e.state ≡ false)
  pub unqueued : (p : ℕ) → cell p ≡ none → waiters p ws ≡ 0
  pub queued :
      (p : ℕ) (e : LimiterEntry)
      → cell p ≡ some e
      → waiters p ws ≡ (if is_quiescing e.state then 1 else 0)
  pub roused :
      (p : ℕ) (e : LimiterEntry)
      → cell p ≡ some e
      → e.asleep ≡ true
      → (is_quiescing e.state ≡ true) × (0 < e.refs)

-- One entry is changed, and the handles with it.
pub change-Counts :
    (next : ℕ) (cell : ℕ → Option LimiterEntry) (hs gs : List LimiterHandle) (ws : List ℕ) (p : ℕ)
    (e f : LimiterEntry)
    → Counts next cell hs ws
    → cell p ≡ some e
    → f.close_calls ≡ (if is_closed f.state then 1 else 0)
    → (is_active e.state ≡ false → is_active f.state ≡ false)
    → is_quiescing f.state ≡ is_quiescing e.state
    → (f.asleep ≡ true → (is_quiescing f.state ≡ true) × (0 < f.refs))
    → f.refs ≡ pins p gs
    → ((q : ℕ) → q ≢ p → pins q gs ≡ pins q hs)
    → Counts next (store p f cell) gs ws
change-Counts next cell hs gs ws p e f v at once still calm woken refs others = record {
  fresh_cell = λ q h. ground (arith, v.fresh_cell q h, at);
  unpinned = λ q h. ground (arith, v.unpinned q, others q);
  counted = λ q g h. ground (arith, v.counted q g, refs, others q);
  close_once = λ q g h. ground (arith, v.close_once q g, once);
  waited = λ q h.
      let (g, there, idle) = v.waited q h in
      elim (Bool-cases (p == q)) [
        | inl same ↦ (f, rw same refl, still (ground (arith, at, there, idle)))
        | inr other ↦ (g, rw other there, idle)
      ];
  unqueued = λ q h. ground (arith, v.unqueued q);
  queued = λ q g h. ground (arith, v.queued q g, v.queued p e at, calm);
  roused = λ q g h. ground (arith, v.roused q g, woken);
}

-- An active entry quiesces, and a goroutine waits to close it.
pub quiesce-Counts :
    (next : ℕ) (cell : ℕ → Option LimiterEntry) (hs : List LimiterHandle) (ws : List ℕ) (p : ℕ)
    (e : LimiterEntry)
    → Counts next cell hs ws
    → cell p ≡ some e
    → is_active e.state ≡ true
    → Counts next (store p (quiesce e) cell) hs (p ∷ ws)
unfolding waits waiters
quiesce-Counts next cell hs ws p e v at live = record {
  fresh_cell = λ q h. ground (arith, v.fresh_cell q h, at);
  unpinned = λ q h. ground (arith, v.unpinned q);
  counted = λ q g h. ground (arith, v.counted q g, v.counted p e at);
  close_once = λ q g h. ground (arith, v.close_once q g, v.close_once p e at, live);
  waited = λ q h. elim (Bool-cases (p == q)) [
    | inl same ↦ (quiesce e, rw same refl, refl)
    | inr other ↦
        let (g, there, idle) = v.waited q (ground (arith, h, other)) in (g, rw other there, idle)
  ];
  unqueued = λ q h. ground (arith, v.unqueued q);
  queued = λ q g h. ground (arith, v.queued q g, v.queued p e at, live);
  roused = λ q g h. ground (arith, v.roused q g, v.roused p e at, live);
}

waits-no_longer : (p q : ℕ) (ws : List ℕ) → waits q (no_longer p ws) ≡ true → waits q ws ≡ true
unfolding waits no_longer
waits-no_longer p q [] h = h
waits-no_longer p q (w ∷ ws) h = ground (arith, waits-no_longer p q ws)

-- The state of an entry that a goroutine waits for.
pub waits-quiescing :
    (next : ℕ) (cell : ℕ → Option LimiterEntry) (hs : List LimiterHandle) (ws : List ℕ) (p : ℕ)
    (e : LimiterEntry)
    → Counts next cell hs ws
    → cell p ≡ some e
    → waits p ws ≡ true
    → is_quiescing e.state ≡ true
waits-quiescing next cell hs ws p e v at w = ground (arith, v.queued p e at, waiters-waits p ws w)

-- The waiting goroutine is done, and its entry is closed.
pub close-Counts :
    (next : ℕ) (cell : ℕ → Option LimiterEntry) (hs : List LimiterHandle) (ws : List ℕ) (p : ℕ)
    (e f : LimiterEntry)
    → Counts next cell hs ws
    → cell p ≡ some e
    → waits p ws ≡ true
    → f.state ≡ entry_closed
    → f.close_calls ≡ 1
    → f.asleep ≡ false
    → f.refs ≡ e.refs
    → Counts next (store p f cell) hs (no_longer p ws)
close-Counts next cell hs ws p e f v at w shut once awake refs =
    let less : (q : ℕ) → waiters q (no_longer p ws) + (if q == p then 1 else 0) ≡ waiters q ws =
      λ q. waiters-no_longer p q ws (waiters-waits p ws w) in
    record {
      fresh_cell = λ q h. ground (arith, v.fresh_cell q h, at);
      unpinned = λ q h. ground (arith, v.unpinned q);
      counted = λ q g h. ground (arith, v.counted q g, v.counted p e at, refs);
      close_once = λ q g h. ground (arith, v.close_once q g, shut, once);
      waited = λ q h.
          let (g, there, idle) = v.waited q (waits-no_longer p q ws h) in
          elim (Bool-cases (p == q)) [
            | inl same ↦ (f, rw same refl, ground (arith, shut))
            | inr other ↦ (g, rw other there, idle)
          ];
      unqueued = λ q h. ground (arith, v.unqueued q, less q);
      queued = λ q g h. ground (
        arith,
        v.queued q g,
        v.queued p e at,
        waits-quiescing next cell hs ws p e v at w,
        less q,
        shut,
      );
      roused = λ q g h. ground (arith, v.roused q g, awake);
    }

-- A new entry at the next address, with one handle.
pub new-Counts :
    (next : ℕ) (cell : ℕ → Option LimiterEntry) (hs : List LimiterHandle) (ws : List ℕ)
    (f : LimiterEntry)
    → Counts next cell hs ws
    → f.refs ≡ 1
    → f.close_calls ≡ 0
    → f.state ≡ entry_active
    → f.asleep ≡ false
    → Counts (next + 1) (store next f cell) (hs ++ handle_on next ∷ []) ws
new-Counts next cell hs ws f v refs once active awake = record {
  fresh_cell = λ q h. ground (arith, v.fresh_cell q);
  unpinned = λ q h. ground (arith, v.unpinned q, pins-append q next hs);
  counted = λ q g h.
      ground (arith, v.counted q g, pins-append q next hs, v.unpinned next, v.fresh_cell next);
  close_once = λ q g h. ground (arith, v.close_once q g, once, active);
  waited = λ q h.
      let (g, there, idle) = v.waited q h in (g, ground (arith, v.fresh_cell next, there), idle);
  unqueued = λ q h. ground (arith, v.unqueued q);
  queued = λ q g h. ground (arith, v.queued q g, v.unqueued next, v.fresh_cell next, active);
  roused = λ q g h. ground (arith, v.roused q g, awake);
}
