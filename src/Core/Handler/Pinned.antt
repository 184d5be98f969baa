-- ===== src/Core/Handler/Pinned.antt =====
-- What an acquisition leaves in its shard: a handle at the end, on an entry with a limiter, and the
-- handles of before. Its release leaves no more open handles than there were.
use distributed_rate_limiter.Base.{
  ℕ, ◌+◌, ◌≡◌, refl, arith, Bool, true, false, ◌==◌, Option, none, some, List, [], ◌∷◌, ◌++◌,
  length, get_elem?, Bool-cases, Option-cases, inl, inr, ◌∙◌,
}
use distributed_rate_limiter.Base.Assoc.{insert}
use distributed_rate_limiter.Base.Str.{Str}
use distributed_rate_limiter.Core.Limiter.{RedisLimiter}
use distributed_rate_limiter.Core.Lru.{add, evict_if_needed}
use distributed_rate_limiter.Core.Models.{Result, ok, err}
use distributed_rate_limiter.Core.Pool.{
  entry_active, LimiterEntry, LimiterHandle, LimiterPoolShard, is_active, store, entry_for,
  handle_on, drop_key, drop_all, evict, create_entry, acquire, release,
}
use distributed_rate_limiter.Core.Pool.Counts.{pins, pins-append, pins-mark_released}

abbrev pub has_entry : Option LimiterEntry → Bool
has_entry none = false
has_entry (some e) = true

-- Evictions keep the entries and the handles.
drop_key-keeps :
    (key : Str) (p : ℕ) (s : LimiterPoolShard)
    → has_entry (s.cell p) ≡ true
    → (has_entry ((drop_key key s).cell p) ≡ true) × ((drop_key key s).handles ≡ s.handles)
unfolding drop_key
drop_key-keeps key p s h = elim (Option-cases (entry_for key s)) [
  | inl e ↦ rw (e, drop_key) (h, refl)
  | inr ((q, f), e) ↦ elim (Bool-cases (f.refs == 0)) [
    | inl z ↦ rw (e, z, drop_key) (ground (arith, h), refl)
    | inr z ↦ rw (e, z, drop_key) (ground (arith, h), refl)
  ]
]

drop_all-keeps :
    (keys : List Str) (p : ℕ) (s : LimiterPoolShard)
    → has_entry (s.cell p) ≡ true
    → (has_entry ((drop_all keys s).cell p) ≡ true) × ((drop_all keys s).handles ≡ s.handles)
unfolding drop_all
drop_all-keeps [] p s h = (h, refl)
drop_all-keeps (key ∷ keys) p s h =
    let (there, same) = drop_key-keeps key p s h in
    let (there', same') = drop_all-keeps keys p (drop_key key s) there in (there', same' ∙ same)

-- The handles after an acquisition.
abbrev pub Acquired : LimiterPoolShard → LimiterPoolShard × Result ℕ → Type 0
Acquired s (t, err e) = t ≡ s
Acquired s (t, ok h) =
    (p : ℕ) × (h ≡ length s.handles)
    × (t.handles ≡ s.handles ++ handle_on p ∷ [])
    × (has_entry (t.cell p) ≡ true)

create_entry-Acquired :
    (key : Str) (made : Result RedisLimiter) (s : LimiterPoolShard)
    → Acquired s (create_entry key made s)
unfolding create_entry evict
create_entry-Acquired key (err e) s = refl
create_entry-Acquired key (ok lim) s =
    let (there, same) =
      drop_all-keeps (evict_if_needed (add key s.lru)).1 s.next
        (record {
          m = insert key s.next s.m;
          lru = (evict_if_needed (add key s.lru)).0;
          next = s.next + 1;
          cell =
              store s.next
                (record {
                  lim = lim;
                  state = entry_active;
                  refs = 1;
                  close_calls = 0;
                  asleep = false;
                })
                s.cell;
          handles = s.handles ++ handle_on s.next ∷ [];
          waiting = s.waiting;
        })
        (ground arith) in
    (s.next, refl, same, there)

pub acquire-Acquired :
    (key : Str) (made : Result RedisLimiter) (s : LimiterPoolShard)
    → Acquired s (acquire key made s)
unfolding acquire
acquire-Acquired key made s = elim (Option-cases (entry_for key s)) [
  | inl e ↦ rw (e, acquire) (create_entry-Acquired key made s)
  | inr ((p, f), e) ↦ elim (Bool-cases (is_active f.state)) [
    | inl a ↦ rw (e, a, acquire) (p, refl, refl, ground arith)
    | inr a ↦ rw (e, a, acquire) (create_entry-Acquired key made s)
  ]
]

pub get_elem?-last :
    (hs : List LimiterHandle) (x : LimiterHandle) → get_elem? (hs ++ x ∷ []) (length hs) ≡ some x
get_elem?-last [] x = refl
get_elem?-last (h ∷ hs) x = get_elem?-last hs x

-- The release of the last handle.
pub pins-release :
    (p q : ℕ) (hs : List LimiterHandle) (t : LimiterPoolShard)
    → t.handles ≡ hs ++ handle_on p ∷ []
    → pins q (release (length hs) t).handles ≡ pins q hs
unfolding release
pins-release p q hs t same =
    let last = get_elem?-last hs (handle_on p) in
    rw (same, last, release)
      (ground (
        arith,
        pins-mark_released q (length hs) (handle_on p) (hs ++ handle_on p ∷ []) last refl,
        pins-append q p hs,
      ))
