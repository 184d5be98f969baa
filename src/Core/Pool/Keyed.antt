-- ===== src/Core/Pool/Keyed.antt =====
-- The map of a shard: its keys are those of the LRU list, and its entries are active.
use distributed_rate_limiter.Base.{
  ℕ, ◌≡◌, refl, arith, Bool, true, false, not, ◌&&◌, ◌||◌, ◌==◌, if◌then◌else◌, Option, none, some,
  List, [], ◌∷◌, Bool-cases, inl, inr,
}
use distributed_rate_limiter.Base.Assoc.{
  Assoc, lookup, insert, remove, lookup-insert, lookup-remove,
}
use distributed_rate_limiter.Base.Str.{Str, str_eq, str_eq_iff}
use distributed_rate_limiter.Core.Lru.{LruKeys, has}
use distributed_rate_limiter.Core.Pool.{LimiterEntry, is_active, store}

abbrev pub is_some {ℓ} : {A : Type ℓ} → Option A → Bool
is_some none = false
is_some (some a) = true

-- `ds` are the keys that are evicted from the list and still to be taken from the map.
pub record Keyed (ds : List Str) (m : Assoc ℕ) (lru : LruKeys) (cell : ℕ → Option LimiterEntry)
    : Type 0 where
  pub same_keys : (k : Str) → has k lru.items ≡ (is_some (lookup k m) && not (has k ds))
  pub held :
      (k : Str) (p : ℕ)
      → lookup k m ≡ some p
      → (e : LimiterEntry) × (cell p ≡ some e) × (is_active e.state ≡ true)
  pub unique : (k j : Str) (p : ℕ) → lookup k m ≡ some p → lookup j m ≡ some p → k ≡ j

-- A key and its entry leave the map.
pub remove-Keyed :
    (k : Str) (ds : List Str) (m : Assoc ℕ) (lru new : LruKeys) (cell : ℕ → Option LimiterEntry)
    (p : ℕ) (f : LimiterEntry)
    → Keyed ds m lru cell
    → lookup k m ≡ some p
    → ((j : Str) → has j new.items ≡ (if str_eq k j then false else has j lru.items))
    → Keyed ds (remove k m) new (store p f cell)
remove-Keyed k ds m lru new cell p f v at keys = record {
  same_keys = λ j. ground (arith, v.same_keys j, keys j, lookup-remove k j m, str_eq_iff k j);
  held = λ j q h.
      let differs : str_eq k j ≡ false = ground (arith, lookup-remove k j m, h) in
      let there : lookup j m ≡ some q = ground (arith, lookup-remove k j m, h) in
      let (e, stored, live) = v.held j q there in
      let apart : (p == q) ≡ false =
        ground
          (arith, λ (x : p ≡ q). v.unique k j q (rw (← x) at) there, str_eq_iff k j, differs) in
      (e, rw apart stored, live);
  unique = λ j i q a b.
      v.unique j i q (ground (arith, lookup-remove k j m, a))
        (ground (arith, lookup-remove k i m, b));
}

-- A key of `ds` leaves the map, or is not in it.
pub drop-Keyed :
    (k : Str) (ds : List Str) (m : Assoc ℕ) (lru : LruKeys) (cell : ℕ → Option LimiterEntry) (p : ℕ)
    (f : LimiterEntry)
    → Keyed (k ∷ ds) m lru cell
    → lookup k m ≡ some p
    → Keyed ds (remove k m) lru (store p f cell)
unfolding has
drop-Keyed k ds m lru cell p f v at = record {
  same_keys = λ j. ground (arith, v.same_keys j, lookup-remove k j m, str_eq_iff k j);
  held = λ j q h.
      let differs : str_eq k j ≡ false = ground (arith, lookup-remove k j m, h) in
      let there : lookup j m ≡ some q = ground (arith, lookup-remove k j m, h) in
      let (e, stored, live) = v.held j q there in
      let apart : (p == q) ≡ false =
        ground
          (arith, λ (x : p ≡ q). v.unique k j q (rw (← x) at) there, str_eq_iff k j, differs) in
      (e, rw apart stored, live);
  unique = λ j i q a b.
      v.unique j i q (ground (arith, lookup-remove k j m, a))
        (ground (arith, lookup-remove k i m, b));
}

pub skip-Keyed :
    (k : Str) (ds : List Str) (m : Assoc ℕ) (lru : LruKeys) (cell : ℕ → Option LimiterEntry)
    → Keyed (k ∷ ds) m lru cell
    → lookup k m ≡ none
    → Keyed ds m lru cell
unfolding has
skip-Keyed k ds m lru cell v at = record {
  same_keys = λ j. ground (arith, v.same_keys j, at, str_eq_iff k j);
  held = v.held;
  unique = v.unique;
}

-- A new entry comes under a key, at an address that the map does not have.
pub insert-Keyed :
    (k : Str) (m : Assoc ℕ) (lru new : LruKeys) (cell : ℕ → Option LimiterEntry) (p : ℕ)
    (f : LimiterEntry)
    → Keyed [] m lru cell
    → cell p ≡ none
    → is_active f.state ≡ true
    → ((j : Str) → has j new.items ≡ (str_eq k j || has j lru.items))
    → Keyed [] (insert k p m) new (store p f cell)
unfolding has
insert-Keyed k m lru new cell p f v free live keys =
    let old : (j : Str) (q : ℕ) → lookup j m ≡ some q → (p == q) ≡ false =
      λ j q h. let (e, stored, x) = v.held j q h in ground (arith, free, stored) in
    record {
      same_keys = λ j. ground (arith, v.same_keys j, keys j, lookup-insert k j p m);
      held = λ j q h. elim (Bool-cases (p == q)) [
        | inl same ↦ (f, rw same refl, live)
        | inr other ↦
            let (e, stored, x) = v.held j q (ground (arith, lookup-insert k j p m, h, other)) in
            (e, rw other stored, x)
      ];
      unique = λ j i q a b. ground (
        arith,
        lookup-insert k j p m,
        lookup-insert k i p m,
        str_eq_iff k j,
        str_eq_iff k i,
        v.unique j i q,
        old j q,
        old i q,
        a,
        b,
      );
    }

-- An entry of the map changes and stays active; the keys stay.
pub change-Keyed :
    (m : Assoc ℕ) (lru new : LruKeys) (cell : ℕ → Option LimiterEntry) (p : ℕ) (e f : LimiterEntry)
    → Keyed [] m lru cell
    → cell p ≡ some e
    → (is_active e.state ≡ true → is_active f.state ≡ true)
    → ((j : Str) → has j new.items ≡ has j lru.items)
    → Keyed [] m new (store p f cell)
change-Keyed m lru new cell p e f v at live keys = record {
  same_keys = λ j. ground (arith, v.same_keys j, keys j);
  held = λ j q h.
      let (g, stored, x) = v.held j q h in
      elim (Bool-cases (p == q)) [
        | inl same ↦ (f, rw same refl, live (ground (arith, at, stored, x, same)))
        | inr other ↦ (g, rw other stored, x)
      ];
  unique = v.unique;
}
