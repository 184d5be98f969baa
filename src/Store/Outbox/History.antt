-- ===== src/Store/Outbox/History.antt =====
-- Any sequence of insertions and ticks, from a new outbox.
use distributed_rate_limiter.Base.{
  ℕ, zero, suc, ◌+◌, ◌≤◌, ◌<◌, ◌≡◌, ◌≢◌, refl, arith, Bool, false, List, [], ◌∷◌, ◌++◌, Bool-cases,
  inl, inr, All,
}
use distributed_rate_limiter.Store.Outbox.{OutboxEntry, Outbox, new_outbox, insert, tick}
use distributed_rate_limiter.Store.Outbox.Laws.{Fresh, Distinct, Counted, Inv, once, tick-once}

module _ (Data : Type 0) where
  pub data Step : Type 0 where
    inserts : Data → Step
    ticks : (ℕ → Bool) → Step

  unfoldable pub step : Outbox Data → Step → Outbox Data
  step o (inserts payload) = (insert Data payload o).0
  step o (ticks takes) = (tick Data takes o).0

  unfoldable pub run : Outbox Data → List Step → Outbox Data
  run o [] = o
  run o (s ∷ ss) = run (step o s) ss

  Fresh-append :
      (id : ℕ) (es : List (OutboxEntry Data)) (e : OutboxEntry Data)
      → Fresh Data id es
      → e.row.id ≢ id
      → Fresh Data id (es ++ e ∷ [])
  Fresh-append id [] e h n = (n, tt)
  Fresh-append id (x ∷ es) e h n = (h.0, Fresh-append id es e h.1 n)

  Distinct-append :
      (n : ℕ) (es : List (OutboxEntry Data)) (e : OutboxEntry Data)
      → Distinct Data es
      → Counted Data n es
      → n < e.row.id
      → Distinct Data (es ++ e ∷ [])
  Distinct-append n [] e d c h = (tt, tt)
  Distinct-append n (x ∷ es) e d c h =
      (Fresh-append x.row.id es e d.0 (ground (arith, c.0)), Distinct-append n es e d.1 c.1 h)

  Counted-append :
      (n : ℕ) (es : List (OutboxEntry Data)) (e : OutboxEntry Data)
      → Counted Data n es
      → e.row.id ≡ n + 1
      → Counted Data (n + 1) (es ++ e ∷ [])
  Counted-append n [] e c h = (omega arith, tt)
  Counted-append n (x ∷ es) e c h = (omega (arith, c.0), Counted-append n es e c.1 h)

  insert-Inv : (payload : Data) (o : Outbox Data) → Inv Data o → Inv Data (insert Data payload o).0
  unfolding insert
  insert-Inv payload o v =
      let e : OutboxEntry Data = record {
        row = record { id = o.counter + 1; payload = payload };
        sent = false;
      } in
      record {
        distinct = Distinct-append o.counter o.entries e v.distinct v.counted (omega arith);
        counted = Counted-append o.counter o.entries e v.counted refl;
      }

  -- A property of the ids alone outlives a pass.
  once-All :
      (P : ℕ → Type 0) (takes : ℕ → Bool) (n : ℕ) (es : List (OutboxEntry Data))
      → All (λ e. P e.row.id) es
      → All (λ e. P e.row.id) (once Data takes n es).0
  unfolding once
  once-All P takes zero es h = h
  once-All P takes (suc n) [] h = tt
  once-All P takes (suc n) (e ∷ es) h = elim (Bool-cases e.sent) [
    | inl x ↦ rw (x, once) (h.0, once-All P takes (suc n) es h.1)
    | inr x ↦ rw (x, once) (h.0, once-All P takes n es h.1)
  ]

  once-Distinct :
      (takes : ℕ → Bool) (n : ℕ) (es : List (OutboxEntry Data))
      → Distinct Data es
      → Distinct Data (once Data takes n es).0
  unfolding once
  once-Distinct takes zero es d = d
  once-Distinct takes (suc n) [] d = tt
  once-Distinct takes (suc n) (e ∷ es) d = elim (Bool-cases e.sent) [
    | inl x ↦
        rw (x, once)
          (once-All (λ i. i ≢ e.row.id) takes (suc n) es d.0, once-Distinct takes (suc n) es d.1)
    | inr x ↦
        rw (x, once) (once-All (λ i. i ≢ e.row.id) takes n es d.0, once-Distinct takes n es d.1)
  ]

  step-Inv : (o : Outbox Data) (s : Step) → Inv Data o → Inv Data (step o s)
  unfolding step tick
  step-Inv o (inserts payload) v = insert-Inv payload o v
  step-Inv o (ticks takes) v = record {
    distinct = rw ((tick-once Data takes o v).0) (once-Distinct takes 100 o.entries v.distinct);
    counted =
        rw ((tick-once Data takes o v).0)
          (once-All (λ i. i ≤ o.counter) takes 100 o.entries v.counted);
  }

  run-Inv : (o : Outbox Data) (ss : List Step) → Inv Data o → Inv Data (run o ss)
  unfolding run
  run-Inv o [] v = v
  run-Inv o (s ∷ ss) v = run-Inv (step o s) ss (step-Inv o s v)

  -- After any insertions and ticks, a further tick is one pass over the entries: of the first
  -- hundred that are not sent, those that the pubsub takes are published, in order, and marked;
  -- the others stay as they are.
  pub tick-run :
      (ss : List Step) (takes : ℕ → Bool)
      → ((tick Data takes (run (new_outbox Data) ss)).0.entries
          ≡ (once Data takes 100 (run (new_outbox Data) ss).entries).0)
        × ((tick Data takes (run (new_outbox Data) ss)).1
            ≡ (once Data takes 100 (run (new_outbox Data) ss).entries).1)
  unfolding new_outbox
  tick-run ss takes =
      tick-once Data takes (run (new_outbox Data) ss)
        (run-Inv (new_outbox Data) ss (record { distinct = tt; counted = tt }))
