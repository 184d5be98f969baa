-- ===== src/Core/Coalescer/History.antt =====
-- Any schedule of callers, from an empty shard.
use distributed_rate_limiter.Base.{
  ℕ, ◌≡◌, refl, arith, true, some, List, [], ◌∷◌, Option-cases, ◌⊎◌, inl, inr, ap, sym, ◌∙◌,
}
use mathlib.Core.Path.{subst}
use distributed_rate_limiter.Base.Int.{ℤ}
use distributed_rate_limiter.Base.Assoc.{lookup}
use distributed_rate_limiter.Core.Coalescer.{
  Answer, waiting, returned, CoalescerShard, new_coalescer_shard, Action, result_of, act, then_run,
  run,
}
use distributed_rate_limiter.Core.Coalescer.Laws.{Placed, calls, calls-leads, Inv}
use distributed_rate_limiter.Core.Coalescer.Steps.{act-Inv}

new-Inv : Inv new_coalescer_shard
unfolding lookup
new-Inv = record {
  known = λ k p h. ground (arith, h);
  free = λ p h. refl;
  made = λ p h. ground (arith, h);
  placed = λ c. tt;
  one_leader = λ c d p h. ground (arith, h);
  led = λ p h. ground (arith, h);
}

run-Inv :
    (ttl : ℤ) (xs : List (ℕ × Action)) (s t : CoalescerShard)
    → run ttl xs s ≡ some t
    → Inv s
    → Inv t
unfolding run
run-Inv ttl [] s t h v = let e : s ≡ t = ground (arith, h) in rw (← e) v
run-Inv ttl ((c, a) ∷ rest) s t h v = elim (Option-cases (act ttl c a (s.caller c) s)) [
  | inl e ↦ ground (arith, h, e)
  | inr (u, e) ↦
      run-Inv ttl rest u t (ap (then_run (run ttl rest)) (sym e) ∙ h)
        (act-Inv ttl c a (s.caller c) s u refl e v)
]

module _ (ttl : ℤ) (xs : List (ℕ × Action)) (t : CoalescerShard)
    (reached : run ttl xs new_coalescer_shard ≡ some t) where
  -- In every state that a schedule of callers reaches from an empty shard, two callers that have
  -- returned from the same entry have returned the same decision and the same error.
  pub shared_answer :
      (c d p : ℕ) (a b : Answer) → t.caller c ≡ returned p a → t.caller d ≡ returned p b → a ≡ b
  shared_answer c d p a b c_at d_at =
      let v = run-Inv ttl xs new_coalescer_shard t reached new-Inv in
      let at_c = subst (λ x. Placed t.next t.cell x) c_at (v.placed c) in
      let at_d = subst (λ x. Placed t.next t.cell x) d_at (v.placed d) in
      ground (arith, sym at_c.1 ∙ at_d.1)

  -- In every such state a caller that waits for an entry can go on with the answer of the entry, or
  -- exactly one caller is in its call of the function for the entry, and so no one waits for
  -- nothing.
  pub waiting-led :
      (d p : ℕ)
      → t.caller d ≡ waiting p
      → ((a : Answer) × (result_of (t.cell p) ≡ some a))
        ⊎ ((c : ℕ) × (calls p (t.caller c) ≡ true)
            × ((e : ℕ) → calls p (t.caller e) ≡ true → c ≡ e))
  waiting-led d p d_at =
      let v = run-Inv ttl xs new_coalescer_shard t reached new-Inv in
      let below = subst (λ x. Placed t.next t.cell x) d_at (v.placed d) in
      elim (Option-cases (result_of (t.cell p))) [
        | inr found ↦ inl found
        | inl e ↦
            let (c, l) = v.led p below e in
            inr (
              c,
              l,
              λ f m.
                  v.one_leader c f p (calls-leads p (t.caller c) l) (calls-leads p (t.caller f) m),
            )
      ]
