-- ===== src/Core/Pool/Invariant.antt =====
-- The invariant of a shard, and that every operation keeps it.
use distributed_rate_limiter.Base.{
  ℕ, ◌≤◌, ◌≡◌, refl, arith, true, false, ◌||◌, ◌==◌, if◌then◌else◌, none, some, List, [], ◌∷◌,
  length, Bool-cases, Option-cases, inl, inr, ◌∙◌,
}
use distributed_rate_limiter.Base.Assoc.{lookup}
use distributed_rate_limiter.Base.Str.{Str, str_eq, str_eq_iff}
use distributed_rate_limiter.Core.Lru.{LruKeys, has, without, add, touch, evict_if_needed}
use distributed_rate_limiter.Core.Lru
use distributed_rate_limiter.Core.Lru.Laws.{
  has-without, length-without, add-Inv, touch-Inv, remove-Inv,
}
use distributed_rate_limiter.Core.Lru.Laws
use distributed_rate_limiter.Core.Lru.Eviction.{has-evict_if_needed, evict_if_needed-Evicts}
use distributed_rate_limiter.Core.Pool.{
  LimiterEntry, LimiterPoolShard, is_active, is_closed, entry_for, close_limiter, quiesce, drop_key,
  drop_all, evict,
}
use distributed_rate_limiter.Core.Pool.Counts.{Counts, change-Counts, quiesce-Counts}
use distributed_rate_limiter.Core.Pool.Keyed.{Keyed, drop-Keyed, skip-Keyed}

-- The map, the list and the heap agree: each entry of the map is active, each count of references
-- is that of the open handles, Close is called on an entry once, when it is closed, one goroutine
-- waits for each entry that quiesces, and it sleeps only while there are references.
pub record Inv (s : LimiterPoolShard) : Type 0 where
  pub list : Laws.Inv s.lru
  pub few : length s.lru.items ≤ s.lru.max
  pub keyed : Keyed [] s.m s.lru s.cell
  pub counts : Counts s.next s.cell s.handles s.waiting

pub has-add :
    (k j : Str) (lru : LruKeys) → has j (add k lru).items ≡ (str_eq k j || has j lru.items)
unfolding add has
has-add k j lru = ground (arith, str_eq_iff k j)

pub has-touch :
    (k j : Str) (lru : LruKeys)
    → has k lru.items ≡ true
    → has j (touch k lru).items ≡ has j lru.items
unfolding touch
has-touch k j lru h = ground arith

pub has-remove :
    (k j : Str) (lru : LruKeys)
    → Laws.Inv lru
    → has j (Lru.remove k lru).items ≡ (if str_eq k j then false else has j lru.items)
unfolding Lru.remove
has-remove k j lru v = ground (arith, has-without k j lru.items v.items_distinct, str_eq_iff k j)

pub length-touch :
    (k : Str) (lru : LruKeys)
    → has k lru.items ≡ true
    → (length (touch k lru).items ≡ length lru.items) × ((touch k lru).max ≡ lru.max)
unfolding touch
length-touch k lru h = ground arith

pub length-remove :
    (k : Str) (lru : LruKeys)
    → (length (Lru.remove k lru).items ≤ length lru.items) × ((Lru.remove k lru).max ≡ lru.max)
unfolding Lru.remove
length-remove k lru = elim (Bool-cases (has k lru.items)) [
  | inl h ↦ rw (h, Lru.remove) (omega (arith, length-without k lru.items h), refl)
  | inr h ↦ rw (h, Lru.remove) (omega arith, refl)
]

pub entry_for-found :
    (k : Str) (s : LimiterPoolShard) (p : ℕ) (e : LimiterEntry)
    → entry_for k s ≡ some (p, e)
    → (lookup k s.m ≡ some p) × (s.cell p ≡ some e)
unfolding entry_for
entry_for-found k s p e h = elim (Option-cases (lookup k s.m)) [
  | inl x ↦ absurd (ground (arith, x, h))
  | inr (q, x) ↦ elim (Option-cases (s.cell q)) [
    | inl y ↦ absurd (ground (arith, x, y, h))
    | inr (f, y) ↦ ground (arith, x, y, h)
  ]
]

pub entry_for-missing :
    (k : Str) (ds : List Str) (s : LimiterPoolShard)
    → Keyed ds s.m s.lru s.cell
    → entry_for k s ≡ none
    → lookup k s.m ≡ none
unfolding entry_for
entry_for-missing k ds s v h = elim (Option-cases (lookup k s.m)) [
  | inl x ↦ x
  | inr (p, x) ↦ let (e, y, z) = v.held k p x in absurd (ground (arith, x, y, h))
]

-- The invariant while the keys `ds` are still to be taken from the map.
record Dropping (ds : List Str) (s : LimiterPoolShard) : Type 0 where
  keyed : Keyed ds s.m s.lru s.cell
  counts : Counts s.next s.cell s.handles s.waiting

pub active_unclosed : (e : LimiterEntry) → is_active e.state ≡ true → is_closed e.state ≡ false
active_unclosed e h = ground arith

drop_key-Dropping :
    (k : Str) (ds : List Str) (s : LimiterPoolShard)
    → Dropping (k ∷ ds) s
    → Dropping ds (drop_key k s) × ((drop_key k s).lru ≡ s.lru)
unfolding drop_key
drop_key-Dropping k ds s v = elim (Option-cases (entry_for k s)) [
  | inl e ↦
      rw (e, drop_key)
        (
          record {
            keyed =
                skip-Keyed k ds s.m s.lru s.cell v.keyed (entry_for-missing k (k ∷ ds) s v.keyed e);
            counts = v.counts;
          },
          refl,
        )
  | inr ((p, e), x) ↦
      let (at, there) = entry_for-found k s p e x in
      let (g, stored, live) = v.keyed.held k p at in
      let active : is_active e.state ≡ true = ground (arith, there, stored, live) in
      let unclosed : is_closed e.state ≡ false = ground (arith, active) in
      let never : e.close_calls ≡ 0 = ground (arith, v.counts.close_once p e there, unclosed) in
      elim (Bool-cases (e.refs == 0)) [
        | inl z ↦
            rw (x, z, drop_key)
              (
                record {
                  keyed = drop-Keyed k ds s.m s.lru s.cell p (close_limiter e) v.keyed at;
                  counts =
                      change-Counts s.next s.cell s.handles s.handles s.waiting p e
                        (close_limiter e) v.counts there (ground (arith, unclosed, never))
                        (λ i. ground (arith, unclosed)) (ground (arith, active, unclosed))
                        (λ a.
                          absurd (ground (arith, v.counts.roused p e there, a, active, unclosed)))
                        (ground (arith, v.counts.counted p e there, unclosed)) (λ q n. refl);
                },
                refl,
              )
        | inr z ↦
            rw (x, z, drop_key)
              (
                record {
                  keyed = drop-Keyed k ds s.m s.lru s.cell p (quiesce e) v.keyed at;
                  counts =
                      quiesce-Counts s.next s.cell s.handles s.waiting p e v.counts there active;
                },
                refl,
              )
      ]
]

drop_all-Dropping :
    (ds : List Str) (s : LimiterPoolShard)
    → Dropping ds s
    → Dropping [] (drop_all ds s) × ((drop_all ds s).lru ≡ s.lru)
unfolding drop_all
drop_all-Dropping [] s v = (v, refl)
drop_all-Dropping (k ∷ ds) s v =
    let (w, same) = drop_key-Dropping k ds s v in
    let (done, end) = drop_all-Dropping ds (drop_key k s) w in (done, end ∙ same)

-- Eviction, from a shard whose list may have one key too many.
pub evict-Inv :
    (s : LimiterPoolShard)
    → Laws.Inv s.lru
    → Keyed [] s.m s.lru s.cell
    → Counts s.next s.cell s.handles s.waiting
    → Inv (evict s)
unfolding evict has
evict-Inv s list keyed counts =
    let (lru, gone) = evict_if_needed s.lru in
    let (parts, few) = evict_if_needed-Evicts s.lru list in
    let start : Dropping gone (record s { lru = lru }) = record {
      keyed = record {
        same_keys = λ k. ground (arith, has-evict_if_needed k s.lru list, keyed.same_keys k);
        held = keyed.held;
        unique = keyed.unique;
      };
      counts = counts;
    } in
    let (done, same) = drop_all-Dropping gone (record s { lru = lru }) start in
    record {
      list = rw same (parts.4);
      few = rw same (omega (arith, few, parts.3));
      keyed = done.keyed;
      counts = done.counts;
    }
