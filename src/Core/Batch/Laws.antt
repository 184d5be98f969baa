-- ===== src/Core/Batch/Laws.antt =====
-- Each request of a batch is in one group, that of its limiter.
use distributed_rate_limiter.Base.{
  ℕ, zero, suc, ◌+◌, ◌<◌, ◌≡◌, refl, arith, ◌==◌, List, [], ◌∷◌, ◌++◌, ap, ◌∙◌, if◌then◌else◌,
  Option, none, some, length, Bool-cases, inl, inr,
}
use distributed_rate_limiter.Base.Int.{ℤ}
use distributed_rate_limiter.Base.Str.{Str, str_eq, str_eq_iff}
use distributed_rate_limiter.Base.Assoc.{lookup, lookup-insert}
use distributed_rate_limiter.Core.Keys.{limiter_pool_key}
use distributed_rate_limiter.Core.Models.{CheckLimitRequest}
use distributed_rate_limiter.Core.Batch.{
  BatchGroup, Planning, extend_at, empty_group, key_of, place, plan_from, plan,
}

unfoldable pub request_at : ℕ → List (Option CheckLimitRequest) → Option CheckLimitRequest
request_at i [] = none
request_at zero (r ∷ rs) = r
request_at (suc i) (r ∷ rs) = request_at i rs

abbrev pub group_key : BatchGroup → Str
group_key g = limiter_pool_key g.tenant_id g.resource

-- How often an index occurs in a list, and in the groups of a limiter.
unfoldable pub times : ℕ → List ℕ → ℕ
times i [] = 0
times i (j ∷ js) = (if i == j then 1 else 0) + times i js

unfoldable pub times_for : Str → ℕ → List BatchGroup → ℕ
unfolding times
times_for k i [] = 0
times_for k i (g ∷ gs) =
    (if str_eq (group_key g) k then times i g.indexes else 0) + times_for k i gs

-- One if the request is there and has the key.
unfoldable pub wants : Str → Option CheckLimitRequest → ℕ
wants k none = 0
wants k (some r) = if str_eq (key_of r) k then 1 else 0

times-append :
    (i : ℕ) (js : List ℕ) (j : ℕ) → times i (js ++ j ∷ []) ≡ times i js + (if i == j then 1 else 0)
unfolding times
times-append i [] j = omega arith
times-append i (k ∷ js) j = grind (arith, times-append i js j)

unfoldable key_at : ℕ → List BatchGroup → Option Str
key_at i [] = none
key_at zero (g ∷ gs) = some (group_key g)
key_at (suc i) (g ∷ gs) = key_at i gs

times_for-extend_at :
    (k : Str) (i idx j : ℕ) (r : CheckLimitRequest) (gs : List BatchGroup)
    → key_at idx gs ≡ some (key_of r)
    → times_for k i (extend_at idx j r.cost gs)
      ≡ times_for k i gs + (if i == j then wants k (some r) else 0)
unfolding times_for extend_at key_at wants
times_for-extend_at k i idx j r [] h = ground arith
times_for-extend_at k i zero j r (g ∷ gs) h = ground (arith, times-append i g.indexes j)
times_for-extend_at k i (suc idx) j r (g ∷ gs) h =
    ground (arith, times_for-extend_at k i idx j r gs h)

times_for-append :
    (k : Str) (i : ℕ) (r : CheckLimitRequest) (gs : List BatchGroup)
    → times_for k i (gs ++ empty_group r ∷ []) ≡ times_for k i gs
unfolding times_for times
times_for-append k i r [] = ground arith
times_for-append k i r (g ∷ gs) = ground (arith, times_for-append k i r gs)

key_at-extend_at :
    (v idx j : ℕ) (cost : ℤ) (gs : List BatchGroup)
    → key_at v (extend_at idx j cost gs) ≡ key_at v gs
unfolding extend_at key_at
key_at-extend_at v idx j cost [] = refl
key_at-extend_at zero zero j cost (g ∷ gs) = refl
key_at-extend_at (suc v) zero j cost (g ∷ gs) = refl
key_at-extend_at zero (suc idx) j cost (g ∷ gs) = refl
key_at-extend_at (suc v) (suc idx) j cost (g ∷ gs) = key_at-extend_at v idx j cost gs

key_at-append :
    (v : ℕ) (k : Str) (r : CheckLimitRequest) (gs : List BatchGroup)
    → key_at v gs ≡ some k
    → key_at v (gs ++ empty_group r ∷ []) ≡ some k
unfolding key_at
key_at-append v k r [] h = ground arith
key_at-append zero k r (g ∷ gs) h = h
key_at-append (suc v) k r (g ∷ gs) h = key_at-append v k r gs h

key_at-last :
    (r : CheckLimitRequest) (gs : List BatchGroup)
    → key_at (length gs) (gs ++ empty_group r ∷ []) ≡ some (key_of r)
unfolding key_at
key_at-last r [] = refl
key_at-last r (g ∷ gs) = key_at-last r gs

-- What groupIndex points to is a group with that key.
record Inv (p : Planning) : Type 0 where
  pub pointed : (k : Str) (v : ℕ) → lookup k p.group_index ≡ some v → key_at v p.groups ≡ some k

place-Inv :
    (i : ℕ) (r : CheckLimitRequest) (p : Planning) (o : Option ℕ) → Inv p → Inv (place i r p o)
place-Inv i r p (some idx) h = record {
  pointed = λ k v e. key_at-extend_at v idx i r.cost p.groups ∙ h.pointed k v e;
}
place-Inv i r p none h = record {
  pointed = λ k v e.
      key_at-extend_at v (length p.groups) i r.cost (p.groups ++ empty_group r ∷ [])
      ∙ elim (Bool-cases (str_eq (key_of r) k)) [
        | inl same ↦ ground (
          arith,
          lookup-insert (key_of r) k (length p.groups) p.group_index,
          str_eq_iff (key_of r) k,
          key_at-last r p.groups,
        )
        | inr other ↦ key_at-append v k r p.groups (
            h.pointed k v
              (ground (arith, lookup-insert (key_of r) k (length p.groups) p.group_index)))
      ];
}

place-times :
    (k : Str) (j i : ℕ) (r : CheckLimitRequest) (p : Planning) (o : Option ℕ)
    → Inv p
    → lookup (key_of r) p.group_index ≡ o
    → times_for k j (place i r p o).groups
      ≡ times_for k j p.groups + (if j == i then wants k (some r) else 0)
place-times k j i r p (some idx) h e =
    times_for-extend_at k j idx i r p.groups (h.pointed (key_of r) idx e)
place-times k j i r p none h e =
    times_for-extend_at k j (length p.groups) i r (p.groups ++ empty_group r ∷ [])
      (key_at-last r p.groups)
    ∙ ap (λ n. n + (if j == i then wants k (some r) else 0)) (times_for-append k j r p.groups)

-- The requests from position `i` on that have the index `j`.
unfoldable wanted : Str → ℕ → ℕ → List (Option CheckLimitRequest) → ℕ
wanted k j i [] = 0
wanted k j i (none ∷ rs) = wanted k j (suc i) rs
wanted k j i (some r ∷ rs) = (if j == i then wants k (some r) else 0) + wanted k j (suc i) rs

times-plan_from :
    (k : Str) (j i : ℕ) (rs : List (Option CheckLimitRequest)) (p : Planning)
    → Inv p
    → times_for k j (plan_from i rs p).groups ≡ times_for k j p.groups + wanted k j i rs
unfolding plan_from wanted
times-plan_from k j i [] p h = omega arith
times-plan_from k j i (none ∷ rs) p h = times-plan_from k j (suc i) rs p h
times-plan_from k j i (some r ∷ rs) p h =
    let o = lookup (key_of r) p.group_index in
    omega (
      arith,
      times-plan_from k j (suc i) rs (place i r p o) (place-Inv i r p o h),
      place-times k j i r p o h refl,
    )

wanted_past :
    (k : Str) (j i : ℕ) (rs : List (Option CheckLimitRequest)) → j < i → wanted k j i rs ≡ 0
unfolding wanted
wanted_past k j i [] h = refl
wanted_past k j i (none ∷ rs) h = wanted_past k j (suc i) rs (omega arith)
wanted_past k j i (some r ∷ rs) h = ground (arith, wanted_past k j (suc i) rs (omega arith))

wanted_lem :
    (k : Str) (d i : ℕ) (rs : List (Option CheckLimitRequest))
    → wanted k (i + d) i rs ≡ wants k (request_at d rs)
unfolding wanted request_at wants
wanted_lem k d i [] = refl
wanted_lem k zero i (none ∷ rs) = wanted_past k (i + 0) (suc i) rs (omega arith)
wanted_lem k zero i (some r ∷ rs) = ground (arith, wanted_past k (i + 0) (suc i) rs (omega arith))
wanted_lem k (suc d) i (none ∷ rs) = ground (arith, wanted_lem k d (suc i) rs)
wanted_lem k (suc d) i (some r ∷ rs) = ground (arith, wanted_lem k d (suc i) rs)

-- In the plan of a batch, the index of a request occurs once in the groups with the request's
-- limiter key and nowhere else; an index without a request occurs nowhere.
pub times-plan :
    (rs : List (Option CheckLimitRequest)) (k : Str) (j : ℕ)
    → times_for k j (plan rs) ≡ wants k (request_at j rs)
unfolding plan times_for lookup
times-plan rs k j =
    let zeroed : j ≡ 0 + j = omega arith in
    let from_zero = ap (λ n. wanted k n 0 rs) zeroed ∙ wanted_lem k j 0 rs in
    omega (
      arith,
      times-plan_from k j 0 rs (record { groups = []; group_index = [] })
          (record { pointed = λ k v e. ground (arith) }),
      from_zero,
    )
