-- ===== src/Core/Pool/Draining.antt =====
-- A limiter that is to be closed is closed once its handles are released.
use distributed_rate_limiter.Base.{
  ℕ, zero, suc, ◌≤◌, ◌<◌, ◌≡◌, ◌≢◌, refl, arith, true, false, ◌==◌, none, some, List, [], ◌∷◌,
  length, get_elem?, Bool-cases, Option-cases, inl, inr, ap, sym, ◌∙◌,
}
use distributed_rate_limiter.Base.Int.{ℤ}
use distributed_rate_limiter.Core.Pool.{
  LimiterEntry, LimiterHandle, LimiterPoolShard, is_closed, store, close_limiter, mark_released,
  release, waits, no_longer, close_waited,
}
use distributed_rate_limiter.Core.Pool.Sharded.{new_shard}
use distributed_rate_limiter.Core.Pool.Counts.{pins}
use distributed_rate_limiter.Core.Pool.Invariant.{Inv}
use distributed_rate_limiter.Core.Pool.Operations.{release-Inv, close_waited-Inv}
use distributed_rate_limiter.Core.Pool.History.{Step, run, run-Inv}

-- Release of the handles below a position, the last one first.
unfoldable pub release_all : ℕ → LimiterPoolShard → LimiterPoolShard
release_all zero s = s
release_all (suc n) s = release_all n (release n s)

unfoldable mark_all : ℕ → List LimiterHandle → List LimiterHandle
mark_all zero hs = hs
mark_all (suc n) hs = mark_all n (mark_released n hs)

-- The open handles stand below a position.
abbrev OpenBelow : ℕ → List LimiterHandle → Type 0
OpenBelow n hs = (i : ℕ) (h : LimiterHandle) → get_elem? hs i ≡ some h → n ≤ i → h.released ≡ true

mark_released-out :
    (i : ℕ) (hs : List LimiterHandle) → get_elem? hs i ≡ none → mark_released i hs ≡ hs
unfolding mark_released
mark_released-out i [] h = refl
mark_released-out zero (x ∷ hs) h = absurd (ground (arith, h))
mark_released-out (suc i) (x ∷ hs) h = ap (λ gs. x ∷ gs) (mark_released-out i hs h)

mark_released-again :
    (i : ℕ) (g : LimiterHandle) (hs : List LimiterHandle)
    → get_elem? hs i ≡ some g
    → g.released ≡ true
    → mark_released i hs ≡ hs
unfolding mark_released
mark_released-again i g [] h r = refl
mark_released-again zero g (x ∷ hs) h r = ground (arith, h, r)
mark_released-again (suc i) g (x ∷ hs) h r = ap (λ gs. x ∷ gs) (mark_released-again i g hs h r)

get_elem?-mark_released :
    (i j : ℕ) (g : LimiterHandle) (hs : List LimiterHandle)
    → get_elem? (mark_released i hs) j ≡ some g
    → (i ≡ j → g.released ≡ true) × (i ≢ j → get_elem? hs j ≡ some g)
unfolding mark_released
get_elem?-mark_released i j g [] h = absurd (ground (arith, h))
get_elem?-mark_released zero zero g (x ∷ hs) h = ground (arith, h)
get_elem?-mark_released zero (suc j) g (x ∷ hs) h = ground (arith, h)
get_elem?-mark_released (suc i) zero g (x ∷ hs) h = ground (arith, h)
get_elem?-mark_released (suc i) (suc j) g (x ∷ hs) h =
    let (a, b) = get_elem?-mark_released i j g hs h in
    (λ e. a (omega arith), λ n. b (ground (arith, n)))

mark_released-OpenBelow :
    (n : ℕ) (hs : List LimiterHandle) → OpenBelow (suc n) hs → OpenBelow n (mark_released n hs)
mark_released-OpenBelow n hs v i h at below =
    let (a, b) = get_elem?-mark_released n i h hs at in
    elim (Bool-cases (n == i)) [
      | inl e ↦ a (ground (arith, e))
      | inr e ↦ v i h (b (ground (arith, e))) (ground (arith, e))
    ]

pins_none : (p : ℕ) (hs : List LimiterHandle) → OpenBelow 0 hs → pins p hs ≡ 0
unfolding pins
pins_none p [] v = refl
pins_none p (h ∷ hs) v =
    ground
      (arith, v 0 h refl (omega arith), pins_none p hs (λ i g at b. v (suc i) g at (omega arith)))

pins-mark_all : (p n : ℕ) (hs : List LimiterHandle) → OpenBelow n hs → pins p (mark_all n hs) ≡ 0
unfolding mark_all
pins-mark_all p zero hs v = pins_none p hs v
pins-mark_all p (suc n) hs v =
    pins-mark_all p n (mark_released n hs) (mark_released-OpenBelow n hs v)

below_length :
    (i : ℕ) (h : LimiterHandle) (hs : List LimiterHandle) → get_elem? hs i ≡ some h → i < length hs
below_length i h [] at = absurd (ground (arith, at))
below_length zero h (x ∷ hs) at = omega arith
below_length (suc i) h (x ∷ hs) at = omega (arith, below_length i h hs at)

release_parts :
    (h : ℕ) (s : LimiterPoolShard)
    → ((release h s).handles ≡ mark_released h s.handles) × ((release h s).waiting ≡ s.waiting)
unfolding release
release_parts h s = elim (Option-cases (get_elem? s.handles h)) [
  | inl x ↦ rw (x, release) (sym (mark_released-out h s.handles x), refl)
  | inr (g, x) ↦ elim (Bool-cases g.released) [
    | inl done ↦ rw (x, done, release) (sym (mark_released-again h g s.handles x done), refl)
    | inr open_yet ↦ rw (x, open_yet, release) (refl, refl)
  ]
]

release_all_parts :
    (n : ℕ) (s : LimiterPoolShard)
    → ((release_all n s).handles ≡ mark_all n s.handles) × ((release_all n s).waiting ≡ s.waiting)
unfolding release_all mark_all
release_all_parts zero s = (refl, refl)
release_all_parts (suc n) s =
    let (a, b) = release_all_parts n (release n s) in
    let (c, d) = release_parts n s in (a ∙ ap (mark_all n) c, b ∙ d)

release_all-Inv : (n : ℕ) (s : LimiterPoolShard) → Inv s → Inv (release_all n s)
unfolding release_all
release_all-Inv zero s v = v
release_all-Inv (suc n) s v = release_all-Inv n (release n s) (release-Inv n s v)

close_waited_ready :
    (p : ℕ) (s : LimiterPoolShard)
    → Inv s
    → waits p s.waiting ≡ true
    → pins p s.handles ≡ 0
    → (t : LimiterPoolShard) × (e : LimiterEntry) × (close_waited false p s ≡ some t)
      × (t.cell p ≡ some e)
      × (is_closed e.state ≡ true)
unfolding close_waited
close_waited_ready p s v w none_open =
    let (e, at, idle) = v.counts.waited p w in
    let unused : (e.refs == 0) ≡ true = ground (arith, v.counts.counted p e at, none_open) in
    let awake : e.asleep ≡ false = ground (arith, v.counts.roused p e at, unused) in
    let f = close_limiter (record e { asleep = false }) in
    (
      record s { cell = store p f s.cell; waiting = no_longer p s.waiting },
      f,
      ground (arith, w, at, unused, awake),
      ground arith,
      ground arith,
    )

-- In any state that a shard can reach, also while the waiting goroutine sleeps, the release of all
-- handles wakes it and leaves it no reference to wait for: a limiter that waits to be closed can be
-- closed then without its timeout, and that closes it, with one call of Close. The pause of Cutover
-- before the wait is time that passes, and not part of the model.
pub release_all-closes :
    (max : ℤ) (xs : List Step) (s : LimiterPoolShard) (p : ℕ)
    → run xs (new_shard max) ≡ some s
    → waits p s.waiting ≡ true
    → (t : LimiterPoolShard) × (e : LimiterEntry) × (close_waited false p
          (release_all (length s.handles) s)
        ≡ some t)
      × (t.cell p ≡ some e)
      × (is_closed e.state ≡ true)
      × (e.close_calls ≡ 1)
release_all-closes max xs s p h w =
    let v = run-Inv max xs s h in
    let n = length s.handles in
    let u = release_all-Inv n s v in
    let (hs, ws) = release_all_parts n s in
    let released : pins p (release_all n s).handles ≡ 0 =
      ap (pins p) hs
      ∙ pins-mark_all p n s.handles
          (λ i g at b. absurd (omega (arith, below_length i g s.handles at))) in
    let (t, e, closed, at, shut) =
      close_waited_ready p (release_all n s) u (ap (waits p) ws ∙ w) released in
    let after = close_waited-Inv false p (release_all n s) t u closed in
    (t, e, closed, at, shut, ground (arith, after.counts.close_once p e at, shut))
