-- ===== src/Core/Lru.antt =====
-- lru.go: the keys of a shard in order of use. `order` is the linked list, its front first, and
-- `items` the keys of the map from a key to its list element.
pub mod Laws
pub mod Eviction
mod Examples
use distributed_rate_limiter.Base.{
  ℕ, zero, suc, ◌-◌, ◌≤◌, Bool, true, false, ◌||◌, Option, none, some, List, [], ◌∷◌, ◌++◌, leb,
  length, if◌then◌else◌,
}
use distributed_rate_limiter.Base.Int.{ℤ, pos, pos_part}
use distributed_rate_limiter.Base.Str.{Str, str_eq}

pub record LruKeys : Type 0 where
  pub max : ℕ
  pub items : List Str
  pub order : List Str

unfoldable pub has : Str → List Str → Bool
has k [] = false
has k (j ∷ ks) = str_eq j k || has k ks

-- The list without a key, which stands in it once at most.
unfoldable pub without : Str → List Str → List Str
without k [] = []
without k (j ∷ ks) = if str_eq j k then ks else j ∷ without k ks

-- A negative maximum counts as zero.
unfoldable pub new_lru_keys : ℤ → LruKeys
new_lru_keys max = record { max = pos_part max; items = []; order = [] }

-- Add
unfoldable pub add : Str → LruKeys → LruKeys
unfolding has without
add k lru =
    if has k lru.items
    then record lru { order = k ∷ without k lru.order }
    else record lru { items = k ∷ lru.items; order = k ∷ lru.order }

-- Touch: move to the front, or Add.
unfoldable pub touch : Str → LruKeys → LruKeys
unfolding add
touch k lru = if has k lru.items then record lru { order = k ∷ without k lru.order } else add k lru

-- Remove
unfoldable pub remove : Str → LruKeys → LruKeys
remove k lru =
    if has k lru.items
    then record lru { items = without k lru.items; order = without k lru.order }
    else lru

-- The last element, and the list before it.
unfoldable pub split_last : List Str → Option (List Str × Str)
split_last [] = none
split_last (k ∷ ks) = elim (split_last ks) [
  | none ↦ some ([], k)
  | some (front, last) ↦ some (k ∷ front, last)
]

-- The loop of EvictIfNeeded.
unfoldable pub evict_loop : ℕ → LruKeys → LruKeys × List Str
unfolding without
evict_loop zero lru = (lru, [])
evict_loop (suc n) lru = elim (split_last lru.order) [
  | none ↦ (lru, [])
  | some (front, last) ↦
      let (rest, evicted) =
        evict_loop n (record lru { items = without last lru.items; order = front }) in
      (rest, last ∷ evicted)
]

unfoldable pub evict_if_needed : LruKeys → LruKeys × List Str
evict_if_needed lru =
    if leb (length lru.items) lru.max
    then (lru, [])
    else evict_loop (length lru.items - lru.max) lru
