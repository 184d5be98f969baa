-- ===== src/Store/Redis/FixedWindow/History.antt =====
-- Any sequence of fixed-window requests, on any keys, while the redis goes up and down.
use distributed_rate_limiter.Base.{
  ℕ, ◌+◌, ◌≤◌, ◌≡◌, refl, Bool, true, false, arith, ◌&&◌, if◌then◌else◌, inl, inr, Bool-cases,
  Option, none, some, ◌==◌, List, [], ◌∷◌,
}
use distributed_rate_limiter.Base.Int.{ℤ, pos_part, max_int64}
use mathlib.Core.Path.{subst}
use distributed_rate_limiter.Base.Str.{Str, str_eq, str_eq_iff, str_eq_refl}
use distributed_rate_limiter.Base.Assoc.{lookup, lookup-insert, lookup-insert_self}
use distributed_rate_limiter.Core.Clock.{second, truncate, window_mono}
use distributed_rate_limiter.Core.Models.{
  Result-cases, RuleParams, Decision, Result, ok, err, Error,
}
use distributed_rate_limiter.Core.Window.{WindowCounter, roll}
use distributed_rate_limiter.Core.Window.Laws.{window_start-roll}
use distributed_rate_limiter.Core.Window.Budget.{
  budget, Settled, roll_settled, budget-roll, budget-charge, charge-Settled,
}
use distributed_rate_limiter.Store.Redis.{InMemoryRedis, admit, set_healthy, new_in_memory_redis}
use distributed_rate_limiter.Store.Redis.FixedWindow.{exec_fixed_window}
use distributed_rate_limiter.Store.Redis.FixedWindow.Laws.{
  was_allowed, exec_refused, exec_admitted, admit_inv, window_of, admit_window, window_of_pos,
}

-- A request, the instant at which it is served, and whether the redis is up then.
pub record Call : Type 0 where
  pub up : Bool
  pub now : ℕ
  pub key : Str
  pub cost : ℤ

abbrev start_of : RuleParams → ℕ → ℕ
start_of params now = truncate now (window_of params)

-- The cost that a call is granted for the key `k` in the window that starts at `W`.
unfoldable pub grant : (Str → RuleParams) → Str → ℕ → Call → Result Decision → ℕ
unfolding was_allowed
grant params k W c d =
    if str_eq c.key k
    then (if was_allowed d && (start_of (params k) c.now == W) then pos_part c.cost else 0)
    else 0

-- The clock does not go back, and a cost on the key `k` leaves room for its limit in an int64.
abbrev pub Ordered : (Str → RuleParams) → Str → ℕ → List Call → Type 0
Ordered params k last [] = Unit {0}
Ordered params k last (c ∷ cs) =
    (last ≤ c.now)
    × (str_eq c.key k ≡ true → pos_part (params k).limit + pos_part c.cost ≤ max_int64)
    × Ordered params k c.now cs

unfoldable pub serve :
    {F : Type 0} → (Str → RuleParams) → InMemoryRedis F → Call → InMemoryRedis F × Result Decision
serve params r c = exec_fixed_window (set_healthy c.up r) c.now c.key (params c.key) c.cost

-- The sum of the grants over a sequence of calls.
unfoldable pub granted :
    {F : Type 0} → (Str → RuleParams) → Str → ℕ → InMemoryRedis F → List Call → ℕ
granted params k W r [] = 0
granted params k W r (c ∷ cs) =
    grant params k W c (serve params r c).1 + granted params k W (serve params r c).0 cs

abbrev view : {F : Type 0} → Str → InMemoryRedis F → Option WindowCounter
view k r = lookup k r.fixed_windows

Settled-later :
    (p : RuleParams) (last now : ℕ) (v : Option WindowCounter)
    → last ≤ now
    → Settled p.limit (start_of p last) v
    → Settled p.limit (start_of p now) v
Settled-later p last now none h t = tt
Settled-later p last now (some c) h t =
    (t.0, omega (arith, window_mono last now (window_of p) (window_of_pos p) h))

-- What one call does to the counter of the key `k`.
abbrev Steps : {F : Type 0} → (Str → RuleParams) → Str → ℕ → InMemoryRedis F → Call → Type 0
Steps params k W r c =
    (grant params k W c (serve params r c).1
        + budget (params k).limit W (view k (serve params r c).0)
      ≤ budget (params k).limit W (view k r))
    × Settled (params k).limit (start_of (params k) c.now) (view k (serve params r c).0)
    × ((serve params r c).0.window_default ≡ second)

module _ {F : Type 0} (params : Str → RuleParams) (W : ℕ) (r : InMemoryRedis F) (c : Call)
    (default : r.window_default ≡ second) where
  abbrev admitted : Result ℤ
  admitted = admit (set_healthy c.up r) (params c.key) c.cost

  refused-Steps :
      (k : Str) (e : Error)
      → admitted ≡ err e
      → Settled (params k).limit (start_of (params k) c.now) (view k r)
      → Steps params k W r c
  unfolding serve grant set_healthy
  refused-Steps k e h t =
      rw (exec_refused (set_healthy c.up r) c.now c.key (params c.key) c.cost e h)
        (ground arith, t, default)

  other-Steps :
      (k : Str) (w : ℤ)
      → admitted ≡ ok w
      → str_eq c.key k ≡ false
      → Settled (params k).limit (start_of (params k) c.now) (view k r)
      → Steps params k W r c
  unfolding serve grant set_healthy
  other-Steps k w h other t =
      let e = exec_admitted (set_healthy c.up r) c.now c.key (params c.key) c.cost w h in
      rw (e.0, lookup-insert, other) (ground arith, t, default)

  same-Steps :
      (w : ℤ)
      → admitted ≡ ok w
      → pos_part (params c.key).limit + pos_part c.cost ≤ max_int64
      → Settled (params c.key).limit (start_of (params c.key) c.now) (view c.key r)
      → Steps params c.key W r c
  unfolding serve grant set_healthy
  same-Steps w h room t =
      let p = params c.key in
      let r' = set_healthy c.up r in
      let e = exec_admitted r' c.now c.key p c.cost w h in
      let g = admit_inv r' p c.cost w h in
      let counter = roll (start_of p c.now) (view c.key r) in
      let within = roll_settled p.limit (start_of p c.now) (view c.key r) g.1 t in
      rw (e.0, lookup-insert_self, e.1, admit_window r' p c.cost w default h)
        (
          ground (
            arith,
            str_eq_refl c.key,
            window_start-roll (start_of p c.now) (view c.key r),
            budget-charge p.limit c.cost counter within g.0 room W,
            budget-roll p.limit (start_of p c.now) (view c.key r) g.1 t W,
          ),
          charge-Settled p.limit c.cost counter within g.0 room (start_of p c.now)
              (ground (arith, window_start-roll (start_of p c.now) (view c.key r))),
          default,
        )

  call-Steps :
      (k : Str)
      → (str_eq c.key k ≡ true → pos_part (params k).limit + pos_part c.cost ≤ max_int64)
      → Settled (params k).limit (start_of (params k) c.now) (view k r)
      → Steps params k W r c
  call-Steps k room t = elim (Result-cases admitted) [
    | inl (e, h) ↦ refused-Steps k e h t
    | inr (w, h) ↦ elim (Bool-cases (str_eq c.key k)) [
      | inr other ↦ other-Steps k w h other t
      | inl same ↦ subst (λ j. Goal j) ((str_eq_iff c.key k).0 same) (same-Steps w h) (room same) t
    ]
  ]
    where
      Goal : Str → Type 0
      Goal j =
          pos_part (params j).limit + pos_part c.cost ≤ max_int64
          → Settled (params j).limit (start_of (params j) c.now) (view j r)
          → Steps params j W r c

-- From any state in which the key's counter is settled.
granted-le-budget :
    {F : Type 0} (params : Str → RuleParams) (k : Str) (W last : ℕ) (r : InMemoryRedis F)
    (cs : List Call)
    → r.window_default ≡ second
    → Settled (params k).limit (start_of (params k) last) (view k r)
    → Ordered params k last cs
    → granted params k W r cs ≤ budget (params k).limit W (view k r)
unfolding granted
granted-le-budget params k W last r [] d t o = omega arith
granted-le-budget params k W last r (c ∷ cs) d t o =
    let s =
      call-Steps params W r c d k o.1 (Settled-later (params k) last c.now (view k r) o.0 t) in
    omega (arith, s.0, granted-le-budget params k W c.now (serve params r c).0 cs s.2 s.1 o.2)

-- Whatever calls are served by a new redis, on whatever keys, and however often it is down in
-- between: in no window is a key granted more than its limit. A window that is not positive is one
-- of a second. Each key keeps its limit and its window over the calls, the clock must not go back,
-- and a cost on the key must leave room for its limit in an int64.
pub granted-le-limit :
    (F : Type 0) (params : Str → RuleParams) (k : Str) (W last : ℕ) (cs : List Call)
    → Ordered params k last cs
    → granted params k W (new_in_memory_redis {F = F}) cs ≤ pos_part (params k).limit
unfolding new_in_memory_redis lookup
granted-le-limit F params k W last cs o =
    granted-le-budget params k W last (new_in_memory_redis {F = F}) cs refl tt o
