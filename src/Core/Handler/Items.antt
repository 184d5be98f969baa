-- ===== src/Core/Handler/Items.antt =====
-- The responses of a batch: one for each request, and an invalid one keeps its own.
use distributed_rate_limiter.Base.{
  ℕ, zero, suc, ◌≡◌, ◌≢◌, refl, arith, ◌==◌, Option, List, [], ◌∷◌, length, get_elem?, Bool-cases,
  Option-cases, inl, inr, ap, ◌∙◌,
}
use distributed_rate_limiter.Base.Str.{Str}
use distributed_rate_limiter.Core.Batch.Laws.{times}
use distributed_rate_limiter.Core.Models.{CheckLimitResponse, Decision, Error}
use distributed_rate_limiter.Observability.{InMemoryMetrics}
use distributed_rate_limiter.Core.Handler.{clear_marker, decided}
use distributed_rate_limiter.Core.Handler.Batched.{set_at, refuse_all, decide_group, settle_group}

-- As many responses as before, and the same one at `i`.
abbrev pub Keeps : ℕ → List CheckLimitResponse → List CheckLimitResponse → Type 0
Keeps i before after = (length after ≡ length before) × (get_elem? after i ≡ get_elem? before i)

length-set_at :
    (j : ℕ) (x : CheckLimitResponse) (rs : List CheckLimitResponse)
    → length (set_at j x rs) ≡ length rs
unfolding set_at
length-set_at j x [] = refl
length-set_at zero x (y ∷ ys) = refl
length-set_at (suc j) x (y ∷ ys) = ap suc (length-set_at j x ys)

set_at-Keeps :
    (i j : ℕ) (x : CheckLimitResponse) (rs : List CheckLimitResponse)
    → i ≢ j
    → Keeps i rs (set_at j x rs)
unfolding set_at
set_at-Keeps i j x [] n = (refl, refl)
set_at-Keeps zero zero x (y ∷ ys) n = ground (arith, n)
set_at-Keeps (suc i) zero x (y ∷ ys) n = (refl, refl)
set_at-Keeps zero (suc j) x (y ∷ ys) n = (ap suc (length-set_at j x ys), refl)
set_at-Keeps (suc i) (suc j) x (y ∷ ys) n =
    let k = set_at-Keeps i j x ys (λ e. n (ap suc e)) in (ap suc k.0, k.1)

pub trans-Keeps :
    (i : ℕ) (a b c : List CheckLimitResponse) → Keeps i a b → Keeps i b c → Keeps i a c
trans-Keeps i a b c h k = (k.0 ∙ h.0, k.1 ∙ h.1)

pub refuse_all-Keeps :
    (i : ℕ) (x : CheckLimitResponse) (is : List ℕ) (rs : List CheckLimitResponse)
    → times i is ≡ 0
    → Keeps i rs (refuse_all x is rs)
unfolding refuse_all times
refuse_all-Keeps i x [] rs h = (refl, refl)
refuse_all-Keeps i x (j ∷ is) rs h =
    trans-Keeps i rs (set_at j x rs) _ (set_at-Keeps i j x rs (ground (arith, h)))
      (refuse_all-Keeps i x is (set_at j x rs) (ground (arith, h)))

decide_group-Keeps :
    (i : ℕ) (is : List ℕ) (ds : List Decision) (rs : List CheckLimitResponse)
    → times i is ≡ 0
    → Keeps i rs (decide_group is ds rs)
unfolding decide_group times
decide_group-Keeps i [] ds rs h = (refl, refl)
decide_group-Keeps i (j ∷ is) [] rs h = (refl, refl)
decide_group-Keeps i (j ∷ is) (d ∷ ds) rs h =
    trans-Keeps i rs (set_at j (decided d) rs) _
      (set_at-Keeps i j (decided d) rs (ground (arith, h)))
      (decide_group-Keeps i is ds (set_at j (decided d) rs) (ground (arith, h)))

pub settle_group-Keeps :
    (i : ℕ) (region : Str) (is : List ℕ) (ds : Option (List Decision)) (e : Option Error)
    (rs : List CheckLimitResponse) (m : InMemoryMetrics)
    → times i is ≡ 0
    → Keeps i rs (settle_group region is (ds, e) (rs, m)).0
unfolding settle_group
settle_group-Keeps i region is ds e rs m h = elim (Option-cases (clear_marker e).0) [
  | inr (x, c) ↦ rw (c, settle_group) (refuse_all-Keeps i _ is rs h)
  | inl c ↦ elim (Option-cases ds) [
    | inl nil ↦ rw (c, nil, settle_group) (refuse_all-Keeps i _ is rs h)
    | inr (ds', has) ↦ elim (Bool-cases (length ds' == length is)) [
      | inl same ↦ rw (c, has, same, settle_group) (decide_group-Keeps i is ds' rs h)
      | inr other ↦ rw (c, has, other, settle_group) (refuse_all-Keeps i _ is rs h)
    ]
  ]
]
