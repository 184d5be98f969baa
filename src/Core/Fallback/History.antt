-- ===== src/Core/Fallback/History.antt =====
-- Any sequence of fallback decisions of one instance, while modes, memberships and owners change.
use mathlib.Core.Path.{subst}
use distributed_rate_limiter.Base.{
  ℕ, ◌+◌, ◌≤◌, ◌≡◌, refl, Bool, true, false, arith, ◌&&◌, ◌||◌, if◌then◌else◌, ◌⊎◌, inl, inr,
  Bool-cases, Option, none, some, ◌==◌, List, [], ◌∷◌,
}
use distributed_rate_limiter.Base.Int.{ℤ, pos, pos_part, ◌≤ℤ◌, ◌<ℤ◌, max_int64, leb_ℤ}
use distributed_rate_limiter.Base.Str.{Str, str_eq, str_eq_iff, str_eq_refl}
use distributed_rate_limiter.Base.Assoc.{lookup, insert, lookup-insert, lookup-insert_self}
use distributed_rate_limiter.Core.Clock.{truncate, window_mono}
use distributed_rate_limiter.Core.Models.{RuleParams, Decision}
use distributed_rate_limiter.Core.Membership.{Membership}
use distributed_rate_limiter.Core.Mode.{OperatingMode}
use distributed_rate_limiter.Core.Window.{WindowCounter, roll, fits, charge}
use distributed_rate_limiter.Core.Window.Laws.{window_start-roll}
use distributed_rate_limiter.Core.Window.Budget.{
  budget, Settled, roll_settled, budget-roll, budget-charge_below, charge-Settled_below,
}
use distributed_rate_limiter.Core.Fallback.{
  FallbackLimiter, LocalStore, or_second, owns, allow, allow_within, allow_fixed_window,
}
use distributed_rate_limiter.Core.Fallback.Laws.{ceiling, cap_of, allow_with_cap, normalize_lem}

-- A request with what the limiter finds when it decides on it.
pub record Call : Type 0 where
  pub mode : OperatingMode
  pub mship : Option Membership
  pub ownership : Option (Str → Bool)
  pub now : ℕ
  pub key : Str
  pub cost : ℤ

abbrev start_of : RuleParams → ℕ → ℕ
start_of p now = truncate now (or_second p.window)

-- The clock does not go back, and a cost on the key leaves room for the ceiling in an int64.
abbrev pub Ordered : ℕ → Str → ℕ → List Call → Type 0
Ordered top k last [] = Unit {0}
Ordered top k last (c ∷ cs) =
    (last ≤ c.now)
    × (str_eq c.key k ≡ true → top + pos_part c.cost ≤ max_int64)
    × Ordered top k c.now cs

second_pos : (w : ℤ) → pos 0 <ℤ or_second w
second_pos w = ground arith

or_second_idem : (w : ℤ) → or_second (or_second w) ≡ or_second w
or_second_idem w = ground arith

module _ (fl : FallbackLimiter) (params : Str → RuleParams) where
  abbrev limiter_at : Call → FallbackLimiter
  limiter_at c = record fl { mship = c.mship; ownership = c.ownership }

  unfoldable pub serve : LocalStore → Call → LocalStore × Decision
  serve store c = allow (limiter_at c) c.mode store c.now c.key (params c.key) c.cost

  -- The cost that a call is granted for the key `k` in the window that starts at `W`.
  unfoldable pub grant : Str → ℕ → Call → Decision → ℕ
  grant k W c d =
      if str_eq c.key k
      then (if d.allowed && (start_of (params k) c.now == W) then pos_part c.cost else 0)
      else 0

  unfoldable pub granted : Str → ℕ → LocalStore → List Call → ℕ
  granted k W store [] = 0
  granted k W store (c ∷ cs) = grant k W c (serve store c).1 + granted k W (serve store c).0 cs

  abbrev top : ℤ
  top = pos (ceiling fl.policy)

  abbrev Steps : Str → ℕ → LocalStore → Call → Type 0
  Steps k W store c =
      (grant k W c (serve store c).1 + budget top W (lookup k (serve store c).0)
        ≤ budget top W (lookup k store))
      × Settled top (start_of (params k) c.now) (lookup k (serve store c).0)

  -- The two shapes of a call: turned away, or charged to its key's counter.
  Shape : LocalStore → Call → Type 0
  Shape store c =
      (((serve store c).0 ≡ store) × ((serve store c).1.allowed ≡ false))
      ⊎ ((cap : ℤ) × (pos 0 <ℤ c.cost)
          × (cap ≤ℤ top)
          × ((serve store c).0
              ≡ insert c.key
                  (charge cap c.cost (roll (start_of (params c.key) c.now) (lookup c.key store)))
                  store)
          × ((serve store c).1.allowed
              ≡ fits cap c.cost (roll (start_of (params c.key) c.now) (lookup c.key store))))

  serve-Shape : (store : LocalStore) (c : Call) → Shape store c
  unfolding Shape serve allow_within allow_fixed_window
  serve-Shape store c =
      let (cap, e, low, high) = cap_of (limiter_at c) c.mode in
      let p = params c.key in
      rw
        (
          allow_with_cap (limiter_at c) c.mode store c.now c.key p c.cost cap e,
          (normalize_lem fl.policy).1,
        )
        (elim (Bool-cases (owns c.ownership c.key)) [
          | inr other ↦ rw other (inl (refl, refl))
          | inl own ↦ elim (Bool-cases (leb_ℤ c.cost (pos 0) || leb_ℤ cap (pos 0))) [
            | inl bad ↦ rw (own, bad) (inl (refl, refl))
            | inr good ↦
                rw (own, good, or_second_idem p.window) (inr (cap, ground arith, high, refl, refl))
          ]
        ])

  Settled-later :
      (p : RuleParams) (last now : ℕ) (v : Option WindowCounter)
      → last ≤ now
      → Settled top (start_of p last) v
      → Settled top (start_of p now) v
  Settled-later p last now none h t = tt
  Settled-later p last now (some c) h t =
      (t.0, omega (arith, window_mono last now (or_second p.window) (second_pos p.window) h))

  own-Steps :
      (W : ℕ) (store : LocalStore) (c : Call)
      → Shape store c
      → ceiling fl.policy + pos_part c.cost ≤ max_int64
      → Settled top (start_of (params c.key) c.now) (lookup c.key store)
      → Steps c.key W store c
  unfolding Shape grant
  own-Steps W store c (inl (same, refused)) room t =
      rw (same, refused, str_eq_refl c.key) (omega arith, t)
  own-Steps W store c (inr (cap, cost_pos, below, after, verdict)) room t =
      let s = start_of (params c.key) c.now in
      let v = lookup c.key store in
      let within = roll_settled top s v (omega arith) t in
      rw (after, lookup-insert_self, verdict, str_eq_refl c.key)
        (
          ground (
            arith,
            window_start-roll s v,
            budget-charge_below top cap c.cost (roll s v) within below cost_pos room W,
            budget-roll top s v (omega arith) t W,
          ),
          charge-Settled_below top cap c.cost (roll s v) within below cost_pos room s
              (ground (arith, window_start-roll s v)),
        )

  other-Steps :
      (k : Str) (W : ℕ) (store : LocalStore) (c : Call)
      → Shape store c
      → str_eq c.key k ≡ false
      → Settled top (start_of (params k) c.now) (lookup k store)
      → Steps k W store c
  unfolding Shape grant
  other-Steps k W store c (inl (same, refused)) other t = rw (same, other) (omega arith, t)
  other-Steps k W store c (inr (cap, cost_pos, below, after, verdict)) other t =
      rw (after, lookup-insert, other) (omega arith, t)

  call-Steps :
      (k : Str) (W : ℕ) (store : LocalStore) (c : Call)
      → (str_eq c.key k ≡ true → ceiling fl.policy + pos_part c.cost ≤ max_int64)
      → Settled top (start_of (params k) c.now) (lookup k store)
      → Steps k W store c
  call-Steps k W store c room t = elim (Bool-cases (str_eq c.key k)) [
    | inr other ↦ other-Steps k W store c (serve-Shape store c) other t
    | inl same ↦
        subst (λ j. Settled top (start_of (params j) c.now) (lookup j store) → Steps j W store c)
          ((str_eq_iff c.key k).0 same) (own-Steps W store c (serve-Shape store c) (room same)) t
  ]

  granted-le-budget :
      (k : Str) (W last : ℕ) (store : LocalStore) (cs : List Call)
      → Settled top (start_of (params k) last) (lookup k store)
      → Ordered (ceiling fl.policy) k last cs
      → granted k W store cs ≤ budget top W (lookup k store)
  unfolding granted
  granted-le-budget k W last store [] t o = omega arith
  granted-le-budget k W last store (c ∷ cs) t o =
      let s =
        call-Steps k W store c o.1 (Settled-later (params k) last c.now (lookup k store) o.0 t) in
      omega (arith, s.0, granted-le-budget k W c.now (serve store c).0 cs s.1 o.2)

  -- Whatever calls a new local store decides on, in whatever modes, memberships and ownership: in
  -- no window is a key granted more than the larger of the policy's two caps, or one. A local cap
  -- of zero stands for 100 and an emergency cap of zero for 10, also in the zero policy. The policy
  -- and each key's window stay the same over the calls, the clock must not go back, and a cost on
  -- the key must leave room for that number in an int64.
  pub granted-le-ceiling :
      (k : Str) (W last : ℕ) (cs : List Call)
      → Ordered (ceiling fl.policy) k last cs
      → granted k W [] cs ≤ ceiling fl.policy
  unfolding lookup
  granted-le-ceiling k W last cs o = granted-le-budget k W last [] cs tt o
