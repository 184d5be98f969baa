-- ===== src/Core/Pool/Calm.antt =====
-- Without a timeout no limiter is closed while a handle on it is open.
use distributed_rate_limiter.Base.{
  ℕ, ◌+◌, ◌≡◌, arith, true, false, ◌==◌, Option, some, List, [], ◌∷◌, ◌++◌, get_elem?, Bool-cases,
  Option-cases, inl, inr, sym, ◌∙◌,
}
use distributed_rate_limiter.Base.Assoc.{insert}
use distributed_rate_limiter.Base.Int.{ℤ}
use distributed_rate_limiter.Base.Str.{Str}
use distributed_rate_limiter.Core.Limiter.{RedisLimiter}
use distributed_rate_limiter.Core.Lru.{add, evict_if_needed}
use distributed_rate_limiter.Core.Models.{Result, ok, err}
use distributed_rate_limiter.Core.Pool.{
  entry_active, LimiterEntry, LimiterPoolShard, is_active, is_closed, store, entry_for,
  close_limiter, quiesce, handle_on, drop_key, drop_all, evict, create_entry, acquire, unpin,
  drop_ref, release, cutover, close_waited, sleep,
}
use distributed_rate_limiter.Core.Pool.Sharded.{new_shard}
use distributed_rate_limiter.Core.Pool.Counts.{pins}
use distributed_rate_limiter.Core.Pool.History.{
  Step, acquires, releases, cuts_over, sleeps, closes, late_closes, step, run, run-Inv,
}

-- A closed entry has no references.
abbrev Calm : (ℕ → Option LimiterEntry) → Type 0
Calm cell = (p : ℕ) (e : LimiterEntry) → cell p ≡ some e → is_closed e.state ≡ true → e.refs ≡ 0

store-Calm :
    (cell : ℕ → Option LimiterEntry) (p : ℕ) (f : LimiterEntry)
    → Calm cell
    → (is_closed f.state ≡ true → f.refs ≡ 0)
    → Calm (store p f cell)
store-Calm cell p f v h q e at shut = elim (Bool-cases (p == q)) [
  | inl same ↦ let it : f ≡ e = ground (arith, at, same) in rw (← it) (h (rw it shut))
  | inr other ↦ v q e (ground (arith, at, other)) shut
]

drop_key-Calm : (k : Str) (s : LimiterPoolShard) → Calm s.cell → Calm (drop_key k s).cell
unfolding drop_key
drop_key-Calm k s v = elim (Option-cases (entry_for k s)) [
  | inl x ↦ rw (x, drop_key) v
  | inr ((p, e), x) ↦ elim (Bool-cases (e.refs == 0)) [
    | inl z ↦ rw (x, z, drop_key) (store-Calm s.cell p (close_limiter e) v (λ h. ground (arith, z)))
    | inr z ↦
        rw (x, z, drop_key) (store-Calm s.cell p (quiesce e) v (λ h. absurd (ground (arith, h))))
  ]
]

drop_all-Calm : (ks : List Str) (s : LimiterPoolShard) → Calm s.cell → Calm (drop_all ks s).cell
unfolding drop_all
drop_all-Calm [] s v = v
drop_all-Calm (k ∷ ks) s v = drop_all-Calm ks (drop_key k s) (drop_key-Calm k s v)

evict-Calm : (s : LimiterPoolShard) → Calm s.cell → Calm (evict s).cell
unfolding evict
evict-Calm s v =
    drop_all-Calm (evict_if_needed s.lru).1 (record s { lru = (evict_if_needed s.lru).0 }) v

create_entry-Calm :
    (key : Str) (made : Result RedisLimiter) (s : LimiterPoolShard)
    → Calm s.cell
    → Calm (create_entry key made s).0.cell
unfolding create_entry
create_entry-Calm key (err x) s v = v
create_entry-Calm key (ok lim) s v =
    let f : LimiterEntry = record {
      lim = lim;
      state = entry_active;
      refs = 1;
      close_calls = 0;
      asleep = false;
    } in
    let added : LimiterPoolShard = record {
      m = insert key s.next s.m;
      lru = add key s.lru;
      next = s.next + 1;
      cell = store s.next f s.cell;
      handles = s.handles ++ handle_on s.next ∷ [];
      waiting = s.waiting;
    } in
    evict-Calm added (store-Calm s.cell s.next f v (λ h. absurd (ground (arith, h))))

acquire-Calm :
    (key : Str) (made : Result RedisLimiter) (s : LimiterPoolShard)
    → Calm s.cell
    → Calm (acquire key made s).0.cell
unfolding acquire
acquire-Calm key made s v = elim (Option-cases (entry_for key s)) [
  | inl x ↦ rw (x, acquire) (create_entry-Calm key made s v)
  | inr ((p, e), x) ↦ elim (Bool-cases (is_active e.state)) [
    | inr idle ↦ rw (x, idle, acquire) (create_entry-Calm key made s v)
    | inl live ↦
        rw (x, live, acquire)
          (store-Calm s.cell p (record e { refs = e.refs + 1 }) v
            (λ h. absurd (ground (arith, h, live))))
  ]
]

release-Calm : (h : ℕ) (s : LimiterPoolShard) → Calm s.cell → Calm (release h s).cell
unfolding release
release-Calm h s v = elim (Option-cases (get_elem? s.handles h)) [
  | inl x ↦ rw (x, release) v
  | inr (g, x) ↦ elim (Bool-cases g.released) [
    | inl done ↦ rw (x, done, release) v
    | inr open_yet ↦ elim (Option-cases (s.cell g.entry)) [
      | inl y ↦ rw (x, open_yet, y, unpin, release) v
      | inr (e, y) ↦
          rw (x, open_yet, y, unpin, release)
            (store-Calm s.cell g.entry (drop_ref e) v (λ c. omega (arith, v g.entry e y c)))
    ]
  ]
]

cutover-Calm : (key : Str) (s : LimiterPoolShard) → Calm s.cell → Calm (cutover key s).cell
unfolding cutover
cutover-Calm key s v = elim (Option-cases (entry_for key s)) [
  | inl x ↦ rw (x, cutover) v
  | inr ((p, e), x) ↦
      rw (x, cutover) (store-Calm s.cell p (quiesce e) v (λ h. absurd (ground (arith, h))))
]

close_waited-Calm :
    (p : ℕ) (s t : LimiterPoolShard) → Calm s.cell → close_waited false p s ≡ some t → Calm t.cell
unfolding close_waited
close_waited-Calm p s t v h = elim (Option-cases (s.cell p)) [
  | inl x ↦ absurd (ground (arith, x, h))
  | inr (e, x) ↦
      let zero_refs : e.refs ≡ 0 = ground (arith, x, h) in
      let same : store p (close_limiter (record e { asleep = false })) s.cell ≡ t.cell =
        ground (arith, x, h) in
      rw (← same) (
        store-Calm s.cell p (close_limiter (record e { asleep = false })) v
          (λ c. ground (arith, zero_refs)))
]

sleep-Calm : (p : ℕ) (s t : LimiterPoolShard) → Calm s.cell → sleep p s ≡ some t → Calm t.cell
unfolding sleep
sleep-Calm p s t v h = elim (Option-cases (s.cell p)) [
  | inl x ↦ absurd (ground (arith, x, h))
  | inr (e, x) ↦
      let same : store p (record e { asleep = true }) s.cell ≡ t.cell = ground (arith, x, h) in
      rw (← same) (store-Calm s.cell p (record e { asleep = true }) v (v p e x))
]

-- No step of the sequence is a timeout.
abbrev pub OnTime : List Step → Type 0
OnTime [] = Unit {0}
OnTime (late_closes p ∷ xs) = ⊥
OnTime (acquires key made ∷ xs) = OnTime xs
OnTime (releases h ∷ xs) = OnTime xs
OnTime (cuts_over key ∷ xs) = OnTime xs
OnTime (sleeps p ∷ xs) = OnTime xs
OnTime (closes p ∷ xs) = OnTime xs

run-Calm :
    (xs : List Step) (s t : LimiterPoolShard)
    → OnTime xs
    → Calm s.cell
    → run xs s ≡ some t
    → Calm t.cell
unfolding run step
run-Calm [] s t o v h = let e : s ≡ t = ground (arith, h) in rw (← e) v
run-Calm (acquires key made ∷ xs) s t o v h =
    run-Calm xs (acquire key made s).0 t o (acquire-Calm key made s v) h
run-Calm (releases i ∷ xs) s t o v h = run-Calm xs (release i s) t o (release-Calm i s v) h
run-Calm (cuts_over key ∷ xs) s t o v h = run-Calm xs (cutover key s) t o (cutover-Calm key s v) h
run-Calm (late_closes p ∷ xs) s t o v h = absurd o
run-Calm (sleeps p ∷ xs) s t o v h = elim (Option-cases (sleep p s)) [
  | inl e ↦ absurd (ground (arith, e, h))
  | inr (u, e) ↦ run-Calm xs u t o (sleep-Calm p s u v e) (ground (arith, e, h))
]
run-Calm (closes p ∷ xs) s t o v h = elim (Option-cases (close_waited false p s)) [
  | inl e ↦ absurd (ground (arith, e, h))
  | inr (u, e) ↦ run-Calm xs u t o (close_waited-Calm p s u v e) (ground (arith, e, h))
]

-- As long as no wait has run into its timeout, a limiter that is closed has no open handle: none is
-- closed under a request that still uses it, whether it was evicted or cut over.
pub closed-pins :
    (max : ℤ) (xs : List Step) (t : LimiterPoolShard) (p : ℕ) (e : LimiterEntry)
    → OnTime xs
    → run xs (new_shard max) ≡ some t
    → t.cell p ≡ some e
    → is_closed e.state ≡ true
    → pins p t.handles ≡ 0
closed-pins max xs t p e o h at shut =
    let v = run-Inv max xs t h in
    let calm = run-Calm xs (new_shard max) t o (λ q f c. absurd (ground (arith, c))) h in
    sym (v.counts.counted p e at) ∙ calm p e at shut
