-- ===== src/Store/Redis/SlidingWindow/History.antt =====
-- Any sequence of sliding-window requests, on any keys, while the redis goes up and down.
use mathlib.Core.Path.{subst}
use distributed_rate_limiter.Base.{
  ℕ, suc, ◌+◌, ◌≤◌, ◌<◌, ◌≡◌, refl, true, false, arith, leb, ◌&&◌, if◌then◌else◌, inl, inr,
  Bool-cases, some, List, [], ◌∷◌,
}
use distributed_rate_limiter.Base.Int.{ℤ, pos_part, max_int64, eqb_ℤ_iff}
use native.Mathlib.Decide.{dec_le}
use distributed_rate_limiter.Base.Str.{Str, str_eq, str_eq_iff, str_eq_refl}
use distributed_rate_limiter.Base.Assoc.{lookup, insert, lookup-insert, lookup-insert_self}
use distributed_rate_limiter.Core.Clock.{second, add_time}
use distributed_rate_limiter.Core.Models.{
  Result-cases, RuleParams, Decision, Result, ok, err, Error,
}
use distributed_rate_limiter.Store.Redis.{
  InMemoryRedis, SwEvent, admit, set_healthy, new_in_memory_redis,
}
use distributed_rate_limiter.Store.Redis.FixedWindow.Laws.{
  was_allowed, admit_inv, window_of, admit_window,
}
use distributed_rate_limiter.Store.Redis.FixedWindow.History.{Call, Ordered}
use distributed_rate_limiter.Store.Redis.SlidingWindow.{
  exec_sliding_window, live, kept, sliding_fits, sliding_charge,
}
use distributed_rate_limiter.Store.Redis.SlidingWindow.Laws.{
  weight, Nonneg, live-Nonneg, sliding_fits_exact, charge-Nonneg, weight-sliding_charge,
  weight-live_mono,
}

unfoldable pub serve :
    {F : Type 0} → (Str → RuleParams) → InMemoryRedis F → Call → InMemoryRedis F × Result Decision
serve params r c = exec_sliding_window (set_healthy c.up r) c.now c.key (params c.key) c.cost

-- The cost that a call is granted for the key `k`, if its instant lies in the window that ends at
-- `t`.
unfoldable pub grant : (Str → RuleParams) → Str → ℕ → Call → Result Decision → ℕ
unfolding was_allowed
grant params k t c d =
    if str_eq c.key k
    then (if was_allowed d && (leb c.now t && leb t (add_time c.now (window_of (params k))))
        then pos_part c.cost
        else 0)
    else 0

unfoldable pub granted :
    {F : Type 0} → (Str → RuleParams) → Str → ℕ → InMemoryRedis F → List Call → ℕ
granted params k t r [] = 0
granted params k t r (c ∷ cs) =
    grant params k t c (serve params r c).1 + granted params k t (serve params r c).0 cs

-- The events that the key keeps.
abbrev view : {F : Type 0} → RuleParams → Str → InMemoryRedis F → List SwEvent
view p k r = kept (window_of p) (lookup k r.sliding_windows)

-- The events of the last window stay within the limit.
abbrev Fits : RuleParams → ℕ → List SwEvent → Type 0
Fits p last es = Nonneg es × (weight (live last (window_of p) es) ≤ pos_part p.limit)

abbrev Steps : {F : Type 0} → (Str → RuleParams) → Str → ℕ → InMemoryRedis F → Call → Type 0
Steps params k t r c =
    (c.now ≤ t
      → weight (live t (window_of (params k)) (view (params k) k (serve params r c).0))
        ≡ weight (live t (window_of (params k)) (view (params k) k r))
          + grant params k t c (serve params r c).1)
    × Fits (params k) c.now (view (params k) k (serve params r c).0)
    × ((serve params r c).0.window_default ≡ second)

module _ {F : Type 0} (r : InMemoryRedis F) (now : ℕ) (key : Str) (params : RuleParams)
    (cost : ℤ) where
  pub exec_refused :
      (e : Error)
      → admit r params cost ≡ err e
      → exec_sliding_window r now key params cost ≡ (r, err e)
  unfolding exec_sliding_window
  exec_refused e h = rw (h, exec_sliding_window)

  abbrev events_at : ℤ → List SwEvent
  events_at window = live now window (kept window (lookup key r.sliding_windows))

  pub exec_admitted :
      (window : ℤ)
      → admit r params cost ≡ ok window
      → ((exec_sliding_window r now key params cost).0 ≡ record r {
        sliding_windows =
            insert key
              (record {
                window = window;
                events = sliding_charge params.limit cost now (events_at window);
              })
              r.sliding_windows;
      })
        × (was_allowed (exec_sliding_window r now key params cost).1
            ≡ sliding_fits params.limit cost (events_at window))
  unfolding exec_sliding_window was_allowed
  exec_admitted window h = (rw (h, exec_sliding_window), rw (h, exec_sliding_window))

module _ {F : Type 0} (params : Str → RuleParams) (t : ℕ) (r : InMemoryRedis F) (c : Call)
    (default : r.window_default ≡ second) where
  abbrev admitted : Result ℤ
  admitted = admit (set_healthy c.up r) (params c.key) c.cost

  refused-Steps :
      (k : Str) (e : Error)
      → admitted ≡ err e
      → Fits (params k) c.now (view (params k) k r)
      → Steps params k t r c
  unfolding serve grant set_healthy
  refused-Steps k e h f =
      rw (exec_refused (set_healthy c.up r) c.now c.key (params c.key) c.cost e h)
        ((λ _. ground arith), f, default)

  other-Steps :
      (k : Str) (w : ℤ)
      → admitted ≡ ok w
      → str_eq c.key k ≡ false
      → Fits (params k) c.now (view (params k) k r)
      → Steps params k t r c
  unfolding serve grant set_healthy
  other-Steps k w h other f =
      let e = exec_admitted (set_healthy c.up r) c.now c.key (params c.key) c.cost w h in
      rw (e.0, lookup-insert, other) ((λ _. ground arith), f, default)

  kept_self : (w : ℤ) (es : List SwEvent) → kept w (some (record { window = w; events = es })) ≡ es
  unfolding kept
  kept_self w es = rw ((eqb_ℤ_iff w w).1 refl)

  same-Steps :
      (w : ℤ)
      → admitted ≡ ok w
      → pos_part (params c.key).limit + pos_part c.cost ≤ max_int64
      → Fits (params c.key) c.now (view (params c.key) c.key r)
      → Steps params c.key t r c
  unfolding serve grant set_healthy
  same-Steps w h room f =
      let p = params c.key in
      let r' = set_healthy c.up r in
      let e = exec_admitted r' c.now c.key p c.cost w h in
      let g = admit_inv r' p c.cost w h in
      let es = view p c.key r in
      let old = live c.now (window_of p) es in
      let n = live-Nonneg c.now (window_of p) es f.0 in
      let exact = sliding_fits_exact p.limit c.cost old n g.0 g.1 f.1 room in
      rw (e.0, lookup-insert_self, e.1, admit_window r' p c.cost w default h, kept_self)
        (
          (λ early. ground (
            arith,
            str_eq_refl c.key,
            weight-sliding_charge p.limit c.cost (window_of p) c.now t es early,
          )),
          (
            charge-Nonneg p.limit c.cost old n g.0 g.1 f.1 room c.now,
            ground
                (arith, exact, weight-sliding_charge p.limit c.cost (window_of p) c.now c.now es),
          ),
          default,
        )

  call-Steps :
      (k : Str)
      → (str_eq c.key k ≡ true → pos_part (params k).limit + pos_part c.cost ≤ max_int64)
      → Fits (params k) c.now (view (params k) k r)
      → Steps params k t r c
  call-Steps k room f = elim (Result-cases admitted) [
    | inl (e, h) ↦ refused-Steps k e h f
    | inr (w, h) ↦ elim (Bool-cases (str_eq c.key k)) [
      | inr other ↦ other-Steps k w h other f
      | inl same ↦ subst (λ j. Goal j) ((str_eq_iff c.key k).0 same) (same-Steps w h) (room same) f
    ]
  ]
    where
      Goal : Str → Type 0
      Goal j =
          pos_part (params j).limit + pos_part c.cost ≤ max_int64
          → Fits (params j) c.now (view (params j) j r)
          → Steps params j t r c

-- Calls after the instant `t` grant nothing in a window that ends at `t`.
granted_late :
    {F : Type 0} (params : Str → RuleParams) (k : Str) (t last : ℕ) (r : InMemoryRedis F)
    (cs : List Call)
    → t < last
    → Ordered params k last cs
    → granted params k t r cs ≡ 0
unfolding granted grant
granted_late params k t last r [] h o = refl
granted_late params k t last r (c ∷ cs) h o =
    ground (arith, granted_late params k t c.now (serve params r c).0 cs (omega arith) o.2)

weight-granted-le :
    {F : Type 0} (params : Str → RuleParams) (k : Str) (t last : ℕ) (r : InMemoryRedis F)
    (cs : List Call)
    → r.window_default ≡ second
    → last ≤ t
    → Fits (params k) last (view (params k) k r)
    → Ordered params k last cs
    → weight (live t (window_of (params k)) (view (params k) k r)) + granted params k t r cs
      ≤ pos_part (params k).limit
unfolding granted
weight-granted-le params k t last r [] d early f o =
    omega (arith, weight-live_mono last t (window_of (params k)) (view (params k) k r) early, f.1)
weight-granted-le params k t last r (c ∷ cs) d early f o =
    let es = view (params k) k r in
    let at_call = weight-live_mono last c.now (window_of (params k)) es o.0 in
    let s = call-Steps params t r c d k o.1 (f.0, omega (arith, at_call, f.1)) in
    elim (dec_le c.now t) [
      | yes h ↦
          omega
            (arith, s.0 h, weight-granted-le params k t c.now (serve params r c).0 cs s.2 h s.1 o.2)
      | no h ↦ omega (
        arith,
        weight-live_mono last t (window_of (params k)) es early,
        f.1,
        granted_late params k t (suc t) r (c ∷ cs) (omega arith) (omega arith, o.1, o.2),
      )
    ]

-- Whatever calls are served by a new redis, on whatever keys, and however often it is down in
-- between: of the calls on a key in the last window before any instant `t` of the run, at least
-- `last`, what is granted stays within the limit. A window that is not positive is one of a second.
-- Each key keeps its limit and its window over the calls, the clock must not go back, and a cost on
-- the key must leave room for its limit in an int64.
pub granted-le-limit_sliding :
    (F : Type 0) (params : Str → RuleParams) (k : Str) (t last : ℕ) (cs : List Call)
    → last ≤ t
    → Ordered params k last cs
    → granted params k t (new_in_memory_redis {F = F}) cs ≤ pos_part (params k).limit
unfolding new_in_memory_redis lookup kept live weight
granted-le-limit_sliding F params k t last cs early o = omega (
  arith,
  weight-granted-le params k t last (new_in_memory_redis {F = F}) cs refl early (tt, omega arith) o,
)
