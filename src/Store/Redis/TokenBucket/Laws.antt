-- ===== src/Store/Redis/TokenBucket/Laws.antt =====
-- The tokens of a bucket stay between none and the capacity.
use distributed_rate_limiter.Base.{ℕ, ◌≡◌, true, arith, inl, inr, Bool-cases, Option, none, some}
use distributed_rate_limiter.Base.Int.{ℤ, pos, ◌≤ℤ◌, ◌<ℤ◌}
use distributed_rate_limiter.Base.Float.{Float64, Float64Laws}
use distributed_rate_limiter.Base.Str.{Str, str_eq, str_eq_iff}
use distributed_rate_limiter.Base.Assoc.{lookup, lookup-insert}
use distributed_rate_limiter.Core.Clock.{sub_time}
use distributed_rate_limiter.Core.Models.{Result-cases, RuleParams}
use distributed_rate_limiter.Store.Redis.{InMemoryRedis, TbState, admit}
use distributed_rate_limiter.Store.Redis.FixedWindow.Laws.{admit_inv}
use distributed_rate_limiter.Store.Redis.TokenBucket.{
  zero_f, capacity_of, rate_of, bucket_of, refill, spend, exec_token_bucket,
}

pub capacity_nonneg : (p : RuleParams) → pos 0 <ℤ p.limit → pos 0 <ℤ capacity_of p
unfolding capacity_of
capacity_nonneg p h = ground arith

module _ (fl : Float64) (laws : Float64Laws fl) where
  open fl use {F, of_int, le, lt, seconds, mul, div}

  abbrev pub Between : ℤ → F → Type 0
  Between capacity x = (le (zero_f fl) x ≡ true) × (le x (of_int capacity) ≡ true)

  abbrev pub Filled : ℤ → Option (TbState F) → Type 0
  Filled capacity none = Unit {0}
  Filled capacity (some s) = Between capacity s.tokens

  bucket_of-Between :
      (capacity : ℤ) (now : ℕ) (o : Option (TbState F))
      → pos 0 ≤ℤ capacity
      → Filled capacity o
      → Between capacity (bucket_of fl capacity now o).tokens
  unfolding bucket_of
  bucket_of-Between capacity now none p f =
      (laws.of_int_mono (pos 0) capacity p, laws.of_int_mono capacity capacity (omega arith))
  bucket_of-Between capacity now (some s) p f = f

  refill-Between :
      (capacity : ℤ) (p : RuleParams) (window : ℤ) (now : ℕ) (s : TbState F)
      → pos 0 <ℤ p.limit
      → pos 0 <ℤ window
      → Between capacity s.tokens
      → Between capacity (refill fl capacity (rate_of fl p window) now s)
  unfolding refill rate_of
  refill-Between capacity p window now s l w b =
      elim (Bool-cases (lt (zero_f fl) (seconds (sub_time now s.last)))) [
        | inr e ↦ rw (e, refill) b
        | inl e ↦
            let gain = laws.refill_nonneg (sub_time now s.last) p.limit window l w e in
            let grown = laws.le-add s.tokens _ b.0 gain in
            let up = laws.le_trans _ _ _ b.0 grown in
            let self = laws.of_int_mono capacity capacity (omega arith) in
            rw (e, refill)
              (
                laws.le-min _ _ _ (laws.le_trans _ _ _ b.0 b.1) up,
                laws.min-le_left _ _ self (laws.le_self_right _ _ grown),
              )
      ]

  spend-Between :
      (capacity cost : ℤ) (x : F)
      → pos 0 ≤ℤ cost
      → Between capacity x
      → Between capacity (spend fl cost x)
  unfolding spend
  spend-Between capacity cost x p b = elim (Bool-cases (le (of_int cost) x)) [
    | inr e ↦ rw (e, spend) b
    | inl e ↦
        rw (e, spend) (laws.sub_nonneg x cost e, laws.le_trans _ _ _ (laws.sub-le x cost p e) b.1)
  ]

  -- Over any request on any key: if each bucket's tokens lie between zero and its capacity, they
  -- do so after it, for parameters that belong to the key and have a positive window. So tokens
  -- never pass the capacity, however long a key was idle, and a grant never overdraws a bucket.
  pub exec-Filled :
      (params : Str → RuleParams) (r : InMemoryRedis F) (now : ℕ) (key : Str) (cost : ℤ)
      → ((k : Str) → Filled (capacity_of (params k)) (lookup k r.token_buckets))
      → pos 0 <ℤ (params key).window
      → (k : Str)
      → Filled
          (capacity_of (params k))
          (lookup k (exec_token_bucket fl r now key (params key) cost).0.token_buckets)
  unfolding exec_token_bucket
  exec-Filled params r now key cost all w k = elim (Result-cases (admit r (params key) cost)) [
    | inl (e, h) ↦ rw (h, exec_token_bucket) (all k)
    | inr (window, h) ↦
        let g = admit_inv r (params key) cost window h in
        let cap = capacity_of (params key) in
        let cap_pos = capacity_nonneg (params key) g.1 in
        let o = lookup key r.token_buckets in
        let bucket = bucket_of fl cap now o in
        let full = bucket_of-Between cap now o (omega (arith, cap_pos)) (all key) in
        let window_pos : pos 0 <ℤ window = rw (g.2 w) w in
        let filled = refill-Between cap (params key) window now bucket g.1 window_pos full in
        let after = spend-Between cap cost _ (omega (arith, g.0)) filled in
        rw (h, exec_token_bucket, lookup-insert)
          (elim (Bool-cases (str_eq key k)) [
            | inr other ↦ rw other (all k)
            | inl same ↦ rw (same, ← (str_eq_iff key k).0 same) after
          ])
  ]
