-- ===== src/Core/Mode/Health.antt =====
-- What the stamps of the degrade controller stand for: the health checks so far.
use distributed_rate_limiter.Base.{
  ℕ, suc, ◌≤◌, ◌≡◌, refl, ap, Bool, true, arith, if◌then◌else◌, ◌⊎◌, inl, inr, ◌↔◌, Bool-cases,
  Option, none, some, Option-cases, List, [], ◌∷◌, ◌++◌, length, All, not,
}
use distributed_rate_limiter.Base.Float.{Float64}
use distributed_rate_limiter.Base.Int.{pos, ◌≤ℤ◌}
use distributed_rate_limiter.Base.Str.{Str}
use distributed_rate_limiter.Core.Membership.{InstanceInfo, Membership}
use distributed_rate_limiter.Core.Mode.{
  DegradeController, count_region, count_all, redis_ok, mship_ok, health_of, region_status,
  status_of, required, RegionStatus, unknown,
}

-- A health check: its instant and the answers that it gets.
pub record Check : Type 0 where
  pub now : ℕ
  pub redis : Option Bool
  pub mship : Option Membership

-- The instant of the last check that meets the test, or `at` if none does.
unfoldable pub last_where : (Check → Bool) → ℕ → List Check → ℕ
last_where test at [] = at
last_where test at (c ∷ cs) = last_where test (if test c then c.now else at) cs

-- What that instant is: no check is good and it is `at`, or it is that of a good check after which
-- no other is good.
abbrev pub Latest : (Check → Type 0) → ℕ → List Check → ℕ → Type 0
Latest Good at cs t =
    (All (λ c. Good c → ⊥) cs × (t ≡ at))
    ⊎ ((before : List Check) × (c : Check) × (after : List Check) × (cs ≡ before ++ c ∷ after)
        × Good c
        × All (λ d. Good d → ⊥) after
        × (t ≡ c.now))

Latest-after :
    (Good : Check → Type 0) (at t : ℕ) (c : Check) (cs : List Check)
    → (Good c → ⊥)
    → Latest Good at cs t
    → Latest Good at (c ∷ cs) t
Latest-after Good at t c cs bad (inl (none_good, same)) = inl ((bad, none_good), same)
Latest-after Good at t c cs bad (inr (before, d, after, split, good, none_good, same)) =
    inr (c ∷ before, d, after, ap (λ ds. c ∷ ds) split, good, none_good, same)

Latest-from :
    (Good : Check → Type 0) (at t : ℕ) (c : Check) (cs : List Check)
    → Good c
    → Latest Good c.now cs t
    → Latest Good at (c ∷ cs) t
Latest-from Good at t c cs good (inl (none_good, same)) =
    inr ([], c, cs, refl, good, none_good, same)
Latest-from Good at t c cs good (inr (before, d, after, split, later, none_good, same)) =
    inr (c ∷ before, d, after, ap (λ ds. c ∷ ds) split, later, none_good, same)

pub last_where-Latest :
    (test : Check → Bool) (Good : Check → Type 0)
    → ((c : Check) → (test c ≡ true) ↔ Good c)
    → (at : ℕ) (cs : List Check) → Latest Good at cs (last_where test at cs)
unfolding last_where
last_where-Latest test Good means at [] = inl (tt, refl)
last_where-Latest test Good means at (c ∷ cs) = elim (Bool-cases (test c)) [
  | inl e ↦
      rw e (Latest-from Good at _ c cs ((means c).0 e) (last_where-Latest test Good means c.now cs))
  | inr e ↦
      let bad : Good c → ⊥ = λ g. ground (arith, e, (means c).1 g) in
      rw e (Latest-after Good at _ c cs bad (last_where-Latest test Good means at cs))
]

pub last_where-snoc :
    (test : Check → Bool) (at : ℕ) (cs : List Check) (c : Check)
    → last_where test at (cs ++ c ∷ []) ≡ (if test c then c.now else last_where test at cs)
unfolding last_where
last_where-snoc test at [] c = refl
last_where-snoc test at (d ∷ cs) c = last_where-snoc test (if test d then d.now else at) cs c

-- The redis is up: it answers so, or there is none.
abbrev pub RedisUp : Check → Type 0
RedisUp c = (c.redis ≡ none) ⊎ (c.redis ≡ some true)

pub redis_ok-RedisUp : (c : Check) → (redis_ok c.redis ≡ true) ↔ RedisUp c
unfolding redis_ok
redis_ok-RedisUp c = elim (Option-cases c.redis) [
  | inl e ↦ rw e (ground arith)
  | inr (up, e) ↦ rw e (ground arith)
]

count_region-le : (region : Str) (is : List InstanceInfo) → count_region region is ≤ length is
unfolding count_region
count_region-le region [] = omega arith
count_region-le region (i ∷ is) = ground (arith, count_region-le region is)

count_all-eq-length : (is : List InstanceInfo) → count_all is ≡ length is
count_all-eq-length [] = refl
count_all-eq-length (i ∷ is) = ap suc (count_all-eq-length is)

abbrev pub instances_of : Option Membership → Option (List InstanceInfo)
instances_of none = none
instances_of (some m) = m.instances

abbrev pub Healthy : Option Membership → Type 0
Healthy none = Unit {0}
Healthy (some m) = m.healthy ≡ true

module _ (fl : Float64) where
  open fl use {F, of_int, mul, ceil_int}

  -- The instances of the region are a quorum: there is one, and they are at least the fraction of
  -- all instances, rounded up.
  abbrev pub Quorum : DegradeController F → List InstanceInfo → Type 0
  Quorum dc is =
      (1 ≤ count_region dc.region is)
      × (ceil_int (mul (of_int (pos (length is))) dc.quorum_fraction)
          ≤ℤ pos (count_region dc.region is))

  -- The membership gives a list of instances that has a quorum.
  abbrev pub HasQuorum : DegradeController F → Option Membership → Type 0
  HasQuorum dc x = (is : List InstanceInfo) × (instances_of x ≡ some is) × Quorum dc is

  -- The membership is up: it says so, or there is none, and where a quorum is required it has one.
  abbrev pub MshipUp : DegradeController F → Option Membership → Type 0
  MshipUp dc x = Healthy x × (dc.require_quorum ≡ true → HasQuorum dc x)

  status_of-Quorum :
      (dc : DegradeController F) (is : List InstanceInfo)
      → dc.require_quorum ≡ true
      → ((status_of fl dc is).ok ≡ true) ↔ Quorum dc is
  unfolding status_of required
  status_of-Quorum dc is e =
      rw (e, count_all-eq-length) (ground (arith, count_region-le dc.region is))

  abbrev status_from : DegradeController F → Option (List InstanceInfo) → RegionStatus
  status_from dc given = elim given [
    | none ↦ unknown (not dc.require_quorum)
    | some is ↦ status_of fl dc is
  ]

  status_given :
      (dc : DegradeController F) (given : Option (List InstanceInfo))
      → dc.require_quorum ≡ true
      → ((status_from dc given).ok ≡ true)
        ↔ ((is : List InstanceInfo) × (given ≡ some is) × Quorum dc is)
  status_given dc none e = ground (arith, e)
  status_given dc (some is) e =
      let q = status_of-Quorum dc is e in
      (
        (λ ok. (is, refl, q.0 ok)),
        (λ (js, same, quorum). let t : js ≡ is = ground (arith, same) in q.1 (rw (← t) quorum)),
      )

  region_status-HasQuorum :
      (dc : DegradeController F) (x : Option Membership)
      → dc.require_quorum ≡ true
      → ((region_status fl dc x).ok ≡ true) ↔ HasQuorum dc x
  unfolding region_status
  region_status-HasQuorum dc none e = ground (arith, e)
  region_status-HasQuorum dc (some m) e = status_given dc m.instances e

  health_of-Healthy : (x : Option Membership) → (health_of x ≡ true) ↔ Healthy x
  unfolding health_of
  health_of-Healthy none = ground arith
  health_of-Healthy (some m) = ground arith

  pub mship_ok-MshipUp :
      (dc : DegradeController F) (x : Option Membership) → (mship_ok fl dc x ≡ true) ↔ MshipUp dc x
  unfolding mship_ok
  mship_ok-MshipUp dc x = elim (Bool-cases dc.require_quorum) [
    | inl e ↦ ground (arith, e, health_of-Healthy x, region_status-HasQuorum dc x e)
    | inr e ↦ ground (arith, e, health_of-Healthy x)
  ]
