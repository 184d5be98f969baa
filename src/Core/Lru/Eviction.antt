-- ===== src/Core/Lru/Eviction.antt =====
-- EvictIfNeeded takes the least recently used keys, as many as are too many.
use distributed_rate_limiter.Base.{
  ℕ, zero, suc, ◌+◌, ◌-◌, ◌≤◌, ◌≡◌, refl, arith, true, false, not, ◌&&◌, ◌||◌, leb, List, [], ◌∷◌,
  ◌++◌, ap, sym, ◌∙◌, none, some, length, length-append, Bool-cases, Option-cases, inl, inr,
}
use mathlib.Core.List.{append_assoc, append-nil, reverse, reverse-cons}
use mathlib.Core.Path.{subst}
use distributed_rate_limiter.Base.Str.{Str, str_eq_iff, str_eq_refl}
use distributed_rate_limiter.Core.Lru.{
  LruKeys, has, without, split_last, evict_loop, evict_if_needed,
}
use distributed_rate_limiter.Core.Lru.Laws.{Distinct, Inv, gone-Inv}

split_last-none : (ks : List Str) → split_last ks ≡ none → ks ≡ []
unfolding split_last
split_last-none [] h = refl
split_last-none (k ∷ ks) h = ground arith

split_last-some :
    (ks front : List Str) (last : Str)
    → split_last ks ≡ some (front, last)
    → ks ≡ front ++ last ∷ []
unfolding split_last
split_last-some [] front last h = cc
split_last-some (k ∷ ks) front last h = elim (Option-cases (split_last ks)) [
  | inl e ↦ ground (arith, split_last-none ks)
  | inr ((f, l), e) ↦ ground (arith, split_last-some ks f l e)
]

has_last : (front : List Str) (k : Str) → has k (front ++ k ∷ []) ≡ true
unfolding has
has_last [] k = ground (arith, str_eq_refl k)
has_last (j ∷ front) k = ground (arith, has_last front k)

without_last :
    (front : List Str) (k : Str) → Distinct (front ++ k ∷ []) → without k (front ++ k ∷ []) ≡ front
unfolding has without
without_last [] k d = ground (arith, str_eq_refl k)
without_last (j ∷ front) k d =
    ground (arith, without_last front k d.1, str_eq_iff j k, has_last front k)

-- What a number of rounds does: the order is that of the keys that stay, and behind them the
-- evicted ones, the least recent first in the result.
abbrev pub Evicts : ℕ → LruKeys → LruKeys × List Str → Type 0
Evicts n lru r =
    (lru.order ≡ r.0.order ++ reverse r.1)
    × (length r.1 ≡ n)
    × (length r.0.items + n ≡ length lru.items)
    × (r.0.max ≡ lru.max)
    × Inv r.0

evict_loop-Evicts :
    (n : ℕ) (lru : LruKeys) → Inv lru → n ≤ length lru.items → Evicts n lru (evict_loop n lru)
unfolding evict_loop
evict_loop-Evicts zero lru v h = (sym (append-nil lru.order), refl, omega arith, refl, v)
evict_loop-Evicts (suc n) lru v h = elim (Option-cases (split_last lru.order)) [
  | inl e ↦ absurd (omega (arith, ap length (split_last-none lru.order e), v.same_length))
  | inr ((front, last), e) ↦
      let shape = split_last-some lru.order front last e in
      let held : has last lru.order ≡ true = rw shape (has_last front last) in
      let rest_eq : without last lru.order ≡ front =
        rw shape (without_last front last (subst Distinct shape v.order_distinct)) in
      let next : LruKeys = record lru { items = without last lru.items; order = front } in
      let next_inv : Inv next =
        subst (λ o. Inv (record lru { items = without last lru.items; order = o })) rest_eq
          (gone-Inv last lru v (v.same_keys last ∙ held)) in
      let shorter : length lru.order ≡ length front + 1 =
        ap length shape ∙ length-append front (last ∷ []) in
      let fits : length next.items + 1 ≡ length lru.items =
        omega (arith, next_inv.same_length, v.same_length, shorter) in
      let (order_eq, count_eq, size_eq, max_eq, inv) =
        evict_loop-Evicts n next next_inv (omega (arith, fits)) in
      let kept = (evict_loop n next).0 in
      let gone = (evict_loop n next).1 in
      rw (e, evict_loop)
        (
          shape
              ∙ ap (λ o. o ++ last ∷ []) order_eq
              ∙ append_assoc kept.order (reverse gone) (last ∷ [])
              ∙ ap (λ o. kept.order ++ o) (sym (reverse-cons last gone)),
          ap suc count_eq,
          omega (arith, size_eq, fits),
          max_eq,
          inv,
        )
]

-- On keys that the map and the list agree on: after EvictIfNeeded at most `max` keys are left.
-- The evicted ones are exactly those that were too many, taken from the least recent end, the
-- least recent first; the others keep their order.
pub evict_if_needed-Evicts :
    (lru : LruKeys)
    → Inv lru
    → Evicts (length lru.items - lru.max) lru (evict_if_needed lru)
      × (length (evict_if_needed lru).0.items ≤ lru.max)
unfolding evict_if_needed
evict_if_needed-Evicts lru v = elim (Bool-cases (leb (length lru.items) lru.max)) [
  | inl few ↦
      rw few ((sym (append-nil lru.order), ground arith, ground arith, refl, v), ground arith)
  | inr many ↦
      let e = evict_loop-Evicts (length lru.items - lru.max) lru v (omega arith) in
      rw many (e, ground (arith, e.2))
]

has-append : (k : Str) (front back : List Str) → has k (front ++ back) ≡ (has k front || has k back)
unfolding has
has-append k [] back = ground arith
has-append k (a ∷ front) back = ground (arith, has-append k front back)

has-reverse : (k : Str) (ks : List Str) → has k (reverse ks) ≡ has k ks
unfolding has
has-reverse k [] = refl
has-reverse k (j ∷ ks) =
    ap (has k) (reverse-cons j ks)
    ∙ has-append k (reverse ks) (j ∷ [])
    ∙ ground (arith, has-reverse k ks)

apart :
    (k : Str) (front back : List Str)
    → Distinct (front ++ back)
    → has k back ≡ true
    → has k front ≡ false
unfolding has
apart k [] back d h = refl
apart k (a ∷ front) back d h = ground (
  arith,
  apart k front back d.1 h,
  str_eq_iff a k,
  has-append a front back,
  has-append k front back,
)

-- After EvictIfNeeded just the keys that were there and are not evicted are left.
pub has-evict_if_needed :
    (k : Str) (lru : LruKeys)
    → Inv lru
    → has k (evict_if_needed lru).0.items ≡ (has k lru.items && not (has k (evict_if_needed lru).1))
has-evict_if_needed k lru v =
    let ((order_eq, count_eq, size_eq, max_eq, inv), few) = evict_if_needed-Evicts lru v in
    let kept = (evict_if_needed lru).0.order in
    let gone = (evict_if_needed lru).1 in
    ground (
      arith,
      inv.same_keys k,
      v.same_keys k,
      ap (has k) order_eq,
      has-append k kept (reverse gone),
      has-reverse k gone,
      apart k kept (reverse gone) (subst Distinct order_eq v.order_distinct),
    )
