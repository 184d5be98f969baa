-- ===== src/Core/Mode/Laws.antt =====
-- The mode as a function of the history of health checks.
use distributed_rate_limiter.Base.{
  ℕ, ◌≡◌, refl, Bool, true, arith, Option, none, some, List, [], ◌∷◌, ◌++◌, if◌then◌else◌, ◌∙◌, ap,
  sym, ◌↔◌,
}
use distributed_rate_limiter.Base.Float.{Float64}
use distributed_rate_limiter.Base.Int.{ℤ, pos, ◌≤ℤ◌, ◌<ℤ◌}
use distributed_rate_limiter.Core.Clock.{sub_time, sub_time_pos}
use distributed_rate_limiter.Core.Membership.{Membership}
use distributed_rate_limiter.Core.Mode.{
  OperatingMode, mode_normal, mode_degraded, mode_emergency, DegradeThresholds, DegradeController,
  redis_ok, mship_ok, mode_for, update, status_of, region_status,
}
use distributed_rate_limiter.Core.Mode.Health.{
  Check, last_where, last_where-Latest, last_where-snoc, Latest, RedisUp, redis_ok-RedisUp, MshipUp,
  mship_ok-MshipUp,
}

abbrev redis_test : Check → Bool
redis_test c = redis_ok c.redis

module _ (fl : Float64) where
  open fl use {F}

  abbrev mship_test : DegradeController F → Check → Bool
  mship_test dc c = mship_ok fl dc c.mship

  unfoldable pub run : DegradeController F → List Check → DegradeController F
  run dc [] = dc
  run dc (c ∷ cs) = run (update fl dc c.now c.redis c.mship).0 cs

  update_fields :
      (dc : DegradeController F) (c : Check)
      → ((update fl dc c.now c.redis c.mship).0.thresholds ≡ dc.thresholds)
        × ((update fl dc c.now c.redis c.mship).0.last_redis_healthy
            ≡ (if redis_ok c.redis then c.now else dc.last_redis_healthy))
        × ((update fl dc c.now c.redis c.mship).0.last_mship_healthy
            ≡ (if mship_ok fl dc c.mship then c.now else dc.last_mship_healthy))
  unfolding update
  update_fields dc c = (refl, refl, refl)

  mship_ok-update :
      (dc : DegradeController F) (now : ℕ) (redis : Option Bool) (mship m : Option Membership)
      → mship_ok fl (update fl dc now redis mship).0 m ≡ mship_ok fl dc m
  unfolding update mship_ok region_status status_of
  mship_ok-update dc now redis mship none = refl
  mship_ok-update dc now redis mship (some m) = refl

  last_mship-update :
      (dc : DegradeController F) (now at : ℕ) (redis : Option Bool) (mship : Option Membership)
      (cs : List Check)
      → last_where (mship_test (update fl dc now redis mship).0) at cs
        ≡ last_where (mship_test dc) at cs
  unfolding last_where
  last_mship-update dc now at redis mship [] = refl
  last_mship-update dc now at redis mship (c ∷ cs) =
      rw (mship_ok-update dc now redis mship c.mship)
        (last_mship-update dc now (if mship_test dc c then c.now else at) redis mship cs)

  run_stamps :
      (dc : DegradeController F) (cs : List Check)
      → ((run dc cs).thresholds ≡ dc.thresholds)
        × ((run dc cs).last_redis_healthy ≡ last_where redis_test dc.last_redis_healthy cs)
        × ((run dc cs).last_mship_healthy ≡ last_where (mship_test dc) dc.last_mship_healthy cs)
  unfolding run last_where
  run_stamps dc [] = (refl, refl, refl)
  run_stamps dc (c ∷ cs) =
      let dc' = (update fl dc c.now c.redis c.mship).0 in
      let (a, b, d) = run_stamps dc' cs in
      let (p, q, s) = update_fields dc c in
      (
        a ∙ p,
        b ∙ ap (λ t. last_where redis_test t cs) q,
        d
            ∙ ap (λ t. last_where (mship_test dc') t cs) s
            ∙ last_mship-update dc c.now _ c.redis c.mship cs,
      )

  mship_ok-run :
      (dc : DegradeController F) (m : Option Membership) (cs : List Check)
      → mship_ok fl (run dc cs) m ≡ mship_ok fl dc m
  unfolding run
  mship_ok-run dc m [] = refl
  mship_ok-run dc m (c ∷ cs) =
      mship_ok-run (update fl dc c.now c.redis c.mship).0 m cs
      ∙ mship_ok-update dc c.now c.redis c.mship m

  mode_for_cases :
      (th : DegradeThresholds) (redis_age mship_age : ℤ)
      → let mode = mode_for th redis_age mship_age in
        let late = th.redis_unhealthy_for ≤ℤ redis_age in
        let lost = th.membership_unhealthy ≤ℤ mship_age in
        ((mode ≡ mode_normal) ↔ (late → ⊥))
        × ((mode ≡ mode_emergency) ↔ (late × lost))
        × ((mode ≡ mode_degraded) ↔ (late × (lost → ⊥)))
  unfolding mode_for
  mode_for_cases th redis_age mship_age = ground arith

  -- How the mode stands to the checks; `r` and `m` are the instants of the latest good ones.
  abbrev pub Follows : DegradeController F → List Check → Check → Type 0
  Follows dc cs c =
      (r : ℕ) × (m : ℕ) × Latest RedisUp dc.last_redis_healthy (cs ++ c ∷ []) r
      × Latest (λ d. MshipUp fl dc d.mship) dc.last_mship_healthy (cs ++ c ∷ []) m
      × (let mode = (update fl (run dc cs) c.now c.redis c.mship).0.mode in
          let late = dc.thresholds.redis_unhealthy_for ≤ℤ sub_time c.now r in
          let lost = dc.thresholds.membership_unhealthy ≤ℤ sub_time c.now m in
          ((mode ≡ mode_normal) ↔ (late → ⊥))
          × ((mode ≡ mode_emergency) ↔ (late × lost))
          × ((mode ≡ mode_degraded) ↔ (late × (lost → ⊥))))

  update_mode :
      (dc : DegradeController F) (cs : List Check) (c : Check)
      → (update fl (run dc cs) c.now c.redis c.mship).0.mode
        ≡ mode_for dc.thresholds
            (sub_time c.now (last_where redis_test dc.last_redis_healthy (cs ++ c ∷ [])))
            (sub_time c.now (last_where (mship_test dc) dc.last_mship_healthy (cs ++ c ∷ [])))
  unfolding update
  update_mode dc cs c =
      let (a, b, d) = run_stamps dc cs in
      rw
        (
          last_where-snoc redis_test dc.last_redis_healthy cs c,
          last_where-snoc (mship_test dc) dc.last_mship_healthy cs c,
          mship_ok-run dc c.mship cs,
          a,
          b,
          d,
        )
        refl

  -- After any checks from a controller `dc` the mode follows from two ages, at the last check: that of
  -- the latest check, itself included, that found the redis up, and that of the latest one that found
  -- the membership up, which includes the quorum where it is required; before the first such check
  -- the stamps of `dc` count. The mode is normal exactly while the redis's age is below its
  -- threshold; it is an emergency exactly if both ages have reached theirs; and it is degraded
  -- exactly if that of the redis has and that of the membership has not.
  pub mode-run : (dc : DegradeController F) (cs : List Check) (c : Check) → Follows dc cs c
  mode-run dc cs c =
      let at_redis = dc.last_redis_healthy in
      let at_mship = dc.last_mship_healthy in
      let checks = cs ++ c ∷ [] in
      let r = last_where redis_test at_redis checks in
      let m = last_where (mship_test dc) at_mship checks in
      (
        r,
        m,
        last_where-Latest redis_test RedisUp redis_ok-RedisUp at_redis checks,
        last_where-Latest (mship_test dc) (λ d. MshipUp fl dc d.mship)
            (λ d. mship_ok-MshipUp fl dc d.mship) at_mship checks,
        rw (update_mode dc cs c)
            (mode_for_cases dc.thresholds (sub_time c.now r) (sub_time c.now m)),
      )

  -- While the redis answers that it is healthy, and its threshold is positive, the mode is normal:
  -- a membership that is down or a quorum that is not met has no say.
  pub healthy_redis_normal :
      (dc : DegradeController F) (c : Check)
      → pos 0 <ℤ dc.thresholds.redis_unhealthy_for
      → redis_ok c.redis ≡ true
      → (update fl dc c.now c.redis c.mship).0.mode ≡ mode_normal
  unfolding update mode_for
  healthy_redis_normal dc c p h = ground (arith, sub_time_pos c.now c.now)

  -- The messages "mode changed" lead from the old mode to the new one: one is sent exactly when
  -- the mode is not the last one sent, and it names the two.
  abbrev pub heard : OperatingMode → Option (OperatingMode × OperatingMode) → OperatingMode
  heard m none = m
  heard m (some (old, new)) = new

  unfoldable pub listen : DegradeController F → OperatingMode → List Check → OperatingMode
  listen dc m [] = m
  listen dc m (c ∷ cs) =
      let (dc', sent) = update fl dc c.now c.redis c.mship in listen dc' (heard m sent) cs

  heard-update :
      (dc : DegradeController F) (c : Check)
      → (heard dc.last_mode (update fl dc c.now c.redis c.mship).1
          ≡ (update fl dc c.now c.redis c.mship).0.mode)
        × ((update fl dc c.now c.redis c.mship).0.last_mode
            ≡ (update fl dc c.now c.redis c.mship).0.mode)
  unfolding update
  heard-update dc c = ground arith

  -- Who follows the messages "mode changed" of a controller, whose last mode is its mode at the
  -- start, knows the mode after every check.
  pub listen-mode :
      (dc : DegradeController F) (cs : List Check)
      → dc.last_mode ≡ dc.mode
      → listen dc dc.mode cs ≡ (run dc cs).mode
  unfolding listen run
  listen-mode dc [] e = refl
  listen-mode dc (c ∷ cs) e =
      let dc' = (update fl dc c.now c.redis c.mship).0 in
      let h = heard-update dc c in
      ap (λ m. listen dc' (heard m (update fl dc c.now c.redis c.mship).1) cs) (sym e)
      ∙ ap (λ m. listen dc' m cs) h.0
      ∙ listen-mode dc' cs h.1
