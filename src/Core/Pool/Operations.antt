-- ===== src/Core/Pool/Operations.antt =====
-- Every operation of a shard keeps the invariant.
use distributed_rate_limiter.Base.{
  ℕ, ◌+◌, ◌≡◌, refl, arith, Bool, true, false, ◌==◌, if◌then◌else◌, some, [], ◌∷◌, ◌++◌, get_elem?,
  Bool-cases, Option-cases, inl, inr,
}
use distributed_rate_limiter.Base.Assoc.{insert}
use distributed_rate_limiter.Base.Str.{Str}
use distributed_rate_limiter.Core.Limiter.{RedisLimiter}
use distributed_rate_limiter.Core.Lru.{LruKeys, has, without, add, touch, evict_if_needed}
use distributed_rate_limiter.Core.Lru
use distributed_rate_limiter.Core.Lru.Laws.{add-Inv, touch-Inv, remove-Inv}
use distributed_rate_limiter.Core.Models.{Result, ok, err}
use distributed_rate_limiter.Core.Pool.{
  entry_active, LimiterEntry, LimiterPoolShard, is_active, store, entry_for, close_limiter, quiesce,
  handle_on, create_entry, acquire, mark_released, drop_ref, unpin, release, cutover, waits,
  no_longer, close_waited, sleep,
}
use distributed_rate_limiter.Core.Pool.Counts.{
  pins, pins-append, pins-mark_released, change-Counts, quiesce-Counts, waits-quiescing,
  close-Counts, new-Counts,
}
use distributed_rate_limiter.Core.Pool.Keyed.{remove-Keyed, insert-Keyed, change-Keyed}
-- The map, the list and the heap agree: each entry of the map is active, each count of references
use distributed_rate_limiter.Core.Pool.Invariant.{
  Inv, has-add, has-touch, has-remove, length-touch, length-remove, entry_for-found, evict-Inv,
}

create_entry-Inv :
    (key : Str) (made : Result RedisLimiter) (s : LimiterPoolShard)
    → Inv s
    → Inv (create_entry key made s).0
unfolding create_entry
create_entry-Inv key (err x) s v = v
create_entry-Inv key (ok lim) s v =
    let f : LimiterEntry = record {
      lim = lim;
      state = entry_active;
      refs = 1;
      close_calls = 0;
      asleep = false;
    } in
    evict-Inv
      (record {
        m = insert key s.next s.m;
        lru = add key s.lru;
        next = s.next + 1;
        cell = store s.next f s.cell;
        handles = s.handles ++ handle_on s.next ∷ [];
        waiting = s.waiting;
      })
      (add-Inv key s.lru v.list)
      (insert-Keyed key s.m s.lru (add key s.lru) s.cell s.next f v.keyed
        (v.counts.fresh_cell s.next (omega arith)) refl (λ j. has-add key j s.lru))
      (new-Counts s.next s.cell s.handles s.waiting f v.counts refl refl refl refl)

pub acquire-Inv :
    (key : Str) (made : Result RedisLimiter) (s : LimiterPoolShard)
    → Inv s
    → Inv (acquire key made s).0
unfolding acquire has
acquire-Inv key made s v = elim (Option-cases (entry_for key s)) [
  | inl x ↦ rw (x, acquire) (create_entry-Inv key made s v)
  | inr ((p, e), x) ↦ elim (Bool-cases (is_active e.state)) [
    | inr idle ↦ rw (x, idle, acquire) (create_entry-Inv key made s v)
    | inl live ↦
        let (at, there) = entry_for-found key s p e x in
        let listed : has key s.lru.items ≡ true = ground (arith, v.keyed.same_keys key, at) in
        let pinned : LimiterEntry = record e { refs = e.refs + 1 } in
        let size = length-touch key s.lru listed in
        rw (x, live, acquire)
          (record {
            list = touch-Inv key s.lru v.list;
            few = omega (arith, v.few, size.0, size.1);
            keyed =
                change-Keyed s.m s.lru (touch key s.lru) s.cell p e pinned v.keyed there (λ l. l)
                  (λ j. has-touch key j s.lru listed);
            counts =
                change-Counts s.next s.cell s.handles (s.handles ++ handle_on p ∷ []) s.waiting p e
                  pinned v.counts there (v.counts.close_once p e there) (λ i. i) refl
                  (λ a. absurd (ground (arith, v.counts.roused p e there a, live)))
                  (grind (arith, v.counts.counted p e there, pins-append p p s.handles))
                  (λ q n. ground (arith, pins-append q p s.handles));
          })
  ]
]

pub release-Inv : (h : ℕ) (s : LimiterPoolShard) → Inv s → Inv (release h s)
unfolding release
release-Inv h s v = elim (Option-cases (get_elem? s.handles h)) [
  | inl x ↦ rw (x, release) v
  | inr (g, x) ↦ elim (Bool-cases g.released) [
    | inl done ↦ rw (x, done, release) v
    | inr open_yet ↦
        let less : (q : ℕ)
            → pins q (mark_released h s.handles) + (if g.entry == q then 1 else 0)
              ≡ pins q s.handles =
          λ q. pins-mark_released q h g s.handles x open_yet in
        elim (Option-cases (s.cell g.entry)) [
          | inl y ↦ absurd (grind (arith, v.counts.unpinned g.entry y, less g.entry))
          | inr (e, y) ↦
              let unpinned : LimiterEntry = drop_ref e in
              rw (x, open_yet, y, unpin, release)
                (record {
                  list = v.list;
                  few = v.few;
                  keyed =
                      change-Keyed s.m s.lru s.lru s.cell g.entry e unpinned v.keyed y (λ l. l)
                        (λ j. refl);
                  counts =
                      change-Counts s.next s.cell s.handles (mark_released h s.handles) s.waiting
                        g.entry e unpinned v.counts y (v.counts.close_once g.entry e y) (λ i. i)
                        refl (λ a. ground (arith, v.counts.roused g.entry e y, a))
                        (ground (arith, v.counts.counted g.entry e y, less g.entry))
                        (λ q n. ground (arith, less q));
                })
        ]
  ]
]

pub cutover-Inv : (key : Str) (s : LimiterPoolShard) → Inv s → Inv (cutover key s)
unfolding cutover
cutover-Inv key s v = elim (Option-cases (entry_for key s)) [
  | inl x ↦ rw (x, cutover) v
  | inr ((p, e), x) ↦
      let (at, there) = entry_for-found key s p e x in
      let (g, stored, live) = v.keyed.held key p at in
      rw (x, cutover)
        (record {
          list = remove-Inv key s.lru v.list;
          few = omega (arith, v.few, (length-remove key s.lru).0, (length-remove key s.lru).1);
          keyed =
              remove-Keyed key [] s.m s.lru (Lru.remove key s.lru) s.cell p (quiesce e) v.keyed at
                (λ j. has-remove key j s.lru v.list);
          counts =
              quiesce-Counts s.next s.cell s.handles s.waiting p e v.counts there
                (ground (arith, there, stored, live));
        })
]

pub close_waited-Inv :
    (late : Bool) (p : ℕ) (s t : LimiterPoolShard) → Inv s → close_waited late p s ≡ some t → Inv t
unfolding close_waited
close_waited-Inv late p s t v h = elim (Bool-cases (waits p s.waiting)) [
  | inr x ↦ absurd (ground (arith, x, h))
  | inl x ↦
      let (e, there, idle) = v.counts.waited p x in
      let f = close_limiter (record e { asleep = false }) in
      let quiescing = waits-quiescing s.next s.cell s.handles s.waiting p e v.counts there x in
      let after : LimiterPoolShard = record s {
        cell = store p f s.cell;
        waiting = no_longer p s.waiting;
      } in
      let same : after ≡ t = ground (arith, x, there, h) in
      rw (← same) (record {
        list = v.list;
        few = v.few;
        keyed =
            change-Keyed s.m s.lru s.lru s.cell p e f v.keyed there
              (λ l. absurd (ground (arith, l, idle))) (λ j. refl);
        counts =
            close-Counts s.next s.cell s.handles s.waiting p e f v.counts there x
              (ground (arith, quiescing)) (ground (arith, quiescing, v.counts.close_once p e there))
              (ground (arith, quiescing)) (ground (arith, quiescing));
      })
]

pub sleep-Inv : (p : ℕ) (s t : LimiterPoolShard) → Inv s → sleep p s ≡ some t → Inv t
unfolding sleep
sleep-Inv p s t v h = elim (Bool-cases (waits p s.waiting)) [
  | inr x ↦ absurd (ground (arith, x, h))
  | inl x ↦
      let (e, there, idle) = v.counts.waited p x in
      let f = record e { asleep = true } in
      let quiescing = waits-quiescing s.next s.cell s.handles s.waiting p e v.counts there x in
      let used : (e.refs == 0) ≡ false = ground (arith, x, there, h) in
      let after : LimiterPoolShard = record s { cell = store p f s.cell } in
      let same : after ≡ t = ground (arith, x, there, used, h) in
      rw (← same) (record {
        list = v.list;
        few = v.few;
        keyed = change-Keyed s.m s.lru s.lru s.cell p e f v.keyed there (λ l. l) (λ j. refl);
        counts =
            change-Counts s.next s.cell s.handles s.handles s.waiting p e f v.counts there
              (v.counts.close_once p e there) (λ i. i) refl (λ a. (quiescing, ground (arith, used)))
              (v.counts.counted p e there) (λ q n. refl);
      })
]
