-- ===== src/Core/Lru/Laws.antt =====
-- The map and the list hold the same keys, and the least recently used ones are evicted.
use distributed_rate_limiter.Base.{
  suc, ◌≡◌, refl, arith, true, false, List, [], ◌∷◌, sym, ◌∙◌, if◌then◌else◌, length, Bool-cases,
  inl, inr,
}
use distributed_rate_limiter.Base.Str.{Str, str_eq, str_eq_iff, str_eq_refl}
use distributed_rate_limiter.Core.Lru.{LruKeys, has, without, add, touch, remove}

-- No key stands in the list twice.
abbrev pub Distinct : List Str → Type 0
Distinct [] = Unit {0}
Distinct (k ∷ ks) = (has k ks ≡ false) × Distinct ks

pub record Inv (lru : LruKeys) : Type 0 where
  pub same_keys : (k : Str) → has k lru.items ≡ has k lru.order
  pub order_distinct : Distinct lru.order
  pub items_distinct : Distinct lru.items
  pub same_length : length lru.items ≡ length lru.order

pub has-without :
    (k j : Str) (ks : List Str)
    → Distinct ks
    → has j (without k ks) ≡ (if str_eq k j then false else has j ks)
unfolding has without
has-without k j [] d = ground arith
has-without k j (i ∷ ks) d =
    ground (arith, has-without k j ks d.1, str_eq_iff k j, str_eq_iff i k, str_eq_iff i j)

without-Distinct : (k : Str) (ks : List Str) → Distinct ks → Distinct (without k ks)
unfolding without
without-Distinct k [] d = tt
without-Distinct k (i ∷ ks) d = ground (arith, without-Distinct k ks d.1, has-without k i ks d.1)

pub length-without :
    (k : Str) (ks : List Str) → has k ks ≡ true → suc (length (without k ks)) ≡ length ks
unfolding has without
length-without k [] h = cc
length-without k (i ∷ ks) h = ground (arith, length-without k ks)

module _ (k : Str) (lru : LruKeys) (v : Inv lru) where
  front-Inv : has k lru.items ≡ true → Inv (record lru { order = k ∷ without k lru.order })
  unfolding has
  front-Inv h =
      let held : has k lru.order ≡ true = sym (v.same_keys k) ∙ h in
      record {
        same_keys = λ j.
            ground
              (arith, v.same_keys j, has-without k j lru.order v.order_distinct, str_eq_iff k j);
        order_distinct = (
          ground (arith, has-without k k lru.order v.order_distinct, str_eq_refl k),
          without-Distinct k lru.order v.order_distinct,
        );
        items_distinct = v.items_distinct;
        same_length = omega (arith, length-without k lru.order held, v.same_length);
      }

  new-Inv :
      has k lru.items ≡ false → Inv (record lru { items = k ∷ lru.items; order = k ∷ lru.order })
  unfolding has
  new-Inv h = record {
    same_keys = λ j. ground (arith, v.same_keys j);
    order_distinct = (ground (arith, v.same_keys k), v.order_distinct);
    items_distinct = (h, v.items_distinct);
    same_length = omega (arith, v.same_length);
  }

  pub gone-Inv :
      has k lru.items ≡ true
      → Inv (record lru { items = without k lru.items; order = without k lru.order })
  gone-Inv h =
      let held : has k lru.order ≡ true = sym (v.same_keys k) ∙ h in
      record {
        same_keys = λ j. ground (
          arith,
          v.same_keys j,
          has-without k j lru.order v.order_distinct,
          has-without k j lru.items v.items_distinct,
        );
        order_distinct = without-Distinct k lru.order v.order_distinct;
        items_distinct = without-Distinct k lru.items v.items_distinct;
        same_length =
            omega
              (arith, length-without k lru.order held, length-without k lru.items h, v.same_length);
      }

  pub add-Inv : Inv (add k lru)
  unfolding add
  add-Inv = elim (Bool-cases (has k lru.items)) [
    | inl h ↦ rw (h, add) (front-Inv h)
    | inr h ↦ rw (h, add) (new-Inv h)
  ]

  pub touch-Inv : Inv (touch k lru)
  unfolding touch
  touch-Inv = elim (Bool-cases (has k lru.items)) [
    | inl h ↦ rw (h, touch) (front-Inv h)
    | inr h ↦ rw (h, touch) (new-Inv h)
  ]

  pub remove-Inv : Inv (remove k lru)
  unfolding remove
  remove-Inv = elim (Bool-cases (has k lru.items)) [
    | inl h ↦ rw (h, remove) (gone-Inv h)
    | inr h ↦ rw (h, remove) v
  ]

  -- After Add or Touch the key is the most recent one.
  pub most_recent :
      ((keys : List Str) × ((add k lru).order ≡ k ∷ keys))
      × ((touch k lru).order ≡ (add k lru).order)
  unfolding add touch
  most_recent = elim (Bool-cases (has k lru.items)) [
    | inl h ↦ rw h ((without k lru.order, refl), refl)
    | inr h ↦ rw h ((lru.order, refl), refl)
  ]
