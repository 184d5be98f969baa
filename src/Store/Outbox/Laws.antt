-- ===== src/Store/Outbox/Laws.antt =====
-- A tick against one pass over the entries, and the ids that this relies on.
use distributed_rate_limiter.Base.{
  ℕ, zero, suc, ◌≤◌, ◌≡◌, ◌≢◌, refl, arith, Bool, true, false, ◌==◌, List, [], ◌∷◌, ap, sym, ◌∙◌,
  if◌then◌else◌, Bool-cases, inl, inr, All,
}
use distributed_rate_limiter.Store.Outbox.{
  OutboxRow, OutboxEntry, Outbox, pending, fetch_pending, mark_sent, publish_rows, tick,
}

module _ (Data : Type 0) where
  -- The id is none of those of the entries.
  abbrev pub Fresh : ℕ → List (OutboxEntry Data) → Type 0
  Fresh id = All (λ e. e.row.id ≢ id)

  abbrev pub Distinct : List (OutboxEntry Data) → Type 0
  Distinct [] = Unit {0}
  Distinct (e ∷ es) = Fresh e.row.id es × Distinct es

  abbrev pub Counted : ℕ → List (OutboxEntry Data) → Type 0
  Counted n = All (λ e. e.row.id ≤ n)

  pub record Inv (o : Outbox Data) : Type 0 where
    pub distinct : Distinct o.entries
    pub counted : Counted o.counter o.entries

  -- One pass: the first `n` entries that are not sent are published, in order, and each of them is
  -- sent exactly if the pubsub took it.
  unfoldable pub once :
      (ℕ → Bool) → ℕ → List (OutboxEntry Data) → List (OutboxEntry Data) × List Data
  once takes zero es = (es, [])
  once takes (suc n) [] = ([], [])
  once takes (suc n) (e ∷ es) =
      let as_sent = once takes (suc n) es in
      let as_row = once takes n es in
      if e.sent then (e ∷ as_sent.0, as_sent.1) else (
        record e { sent = takes e.row.id } ∷ as_row.0,
        if takes e.row.id then e.row.payload ∷ as_row.1 else as_row.1,
      )

  pending-Fresh :
      (id n : ℕ) (es : List (OutboxEntry Data))
      → Fresh id es
      → All (λ r. r.id ≢ id) (pending Data n es)
  unfolding pending
  pending-Fresh id zero es h = tt
  pending-Fresh id (suc n) [] h = tt
  pending-Fresh id (suc n) (e ∷ es) h = elim (Bool-cases e.sent) [
    | inl x ↦ rw x (pending-Fresh id (suc n) es h.1)
    | inr x ↦ rw x (h.0, pending-Fresh id n es h.1)
  ]

  -- Rows of other ids leave an entry alone.
  publish_rows-skip :
      (takes : ℕ → Bool) (e : OutboxEntry Data) (rs : List (OutboxRow Data))
      (es : List (OutboxEntry Data))
      → All (λ r. r.id ≢ e.row.id) rs
      → publish_rows Data takes rs (e ∷ es)
        ≡ (e ∷ (publish_rows Data takes rs es).0, (publish_rows Data takes rs es).1)
  unfolding publish_rows mark_sent
  publish_rows-skip takes e [] es h = refl
  publish_rows-skip takes e (r ∷ rs) es h =
      let other : (e.row.id == r.id) ≡ false = ground (arith, h.0) in
      elim (Bool-cases (takes r.id)) [
        | inl x ↦
            rw (x, other)
              (ap (λ p. (p.0, r.payload ∷ p.1))
                (publish_rows-skip takes e rs (mark_sent Data r.id es).0 h.1))
        | inr x ↦ rw x (publish_rows-skip takes e rs es h.1)
      ]

  pending_sent :
      (e : OutboxEntry Data) (n : ℕ) (es : List (OutboxEntry Data))
      → e.sent ≡ true
      → pending Data (suc n) (e ∷ es) ≡ pending Data (suc n) es
  unfolding pending
  pending_sent e n es x = rw x refl

  pending_waits :
      (e : OutboxEntry Data) (n : ℕ) (es : List (OutboxEntry Data))
      → e.sent ≡ false
      → pending Data (suc n) (e ∷ es) ≡ e.row ∷ pending Data n es
  unfolding pending
  pending_waits e n es x = rw x refl

  once_sent :
      (takes : ℕ → Bool) (e : OutboxEntry Data) (n : ℕ) (es : List (OutboxEntry Data))
      → e.sent ≡ true
      → once takes (suc n) (e ∷ es) ≡ (e ∷ (once takes (suc n) es).0, (once takes (suc n) es).1)
  unfolding once
  once_sent takes e n es x = rw x refl

  abbrev answered : (ℕ → Bool) → OutboxEntry Data → OutboxEntry Data
  answered takes e = record e { sent = takes e.row.id }

  -- What an entry's own row adds to the result for the others.
  abbrev with_row :
      (ℕ → Bool)
      → OutboxEntry Data
      → List (OutboxEntry Data) × List Data
      → List (OutboxEntry Data) × List Data
  with_row takes e p = (p.0, if takes e.row.id then e.row.payload ∷ p.1 else p.1)

  once_waits :
      (takes : ℕ → Bool) (e : OutboxEntry Data) (n : ℕ) (es : List (OutboxEntry Data))
      → e.sent ≡ false
      → once takes (suc n) (e ∷ es)
        ≡ with_row takes e (answered takes e ∷ (once takes n es).0, (once takes n es).1)
  unfolding once
  once_waits takes e n es x = rw x refl

  publish_rows-first :
      (takes : ℕ → Bool) (e : OutboxEntry Data) (rs : List (OutboxRow Data))
      (es : List (OutboxEntry Data))
      → e.sent ≡ false
      → publish_rows Data takes (e.row ∷ rs) (e ∷ es)
        ≡ with_row takes e (publish_rows Data takes rs (answered takes e ∷ es))
  unfolding publish_rows mark_sent
  publish_rows-first takes e rs es x =
      let self : (e.row.id == e.row.id) ≡ true = ground arith in
      elim (Bool-cases (takes e.row.id)) [ inl t ↦ rw (t, self) refl | inr t ↦ rw (t, x) refl ]

  publish_rows-once :
      (takes : ℕ → Bool) (n : ℕ) (es : List (OutboxEntry Data))
      → Distinct es
      → publish_rows Data takes (pending Data n es) es ≡ once takes n es
  unfolding publish_rows pending once
  publish_rows-once takes zero es d = refl
  publish_rows-once takes (suc n) [] d = refl
  publish_rows-once takes (suc n) (e ∷ es) d = elim (Bool-cases e.sent) [
    | inl x ↦
        ap (λ rs. publish_rows Data takes rs (e ∷ es)) (pending_sent e n es x)
        ∙ publish_rows-skip takes e (pending Data (suc n) es) es
            (pending-Fresh e.row.id (suc n) es d.0)
        ∙ ap (λ p. (e ∷ p.0, p.1)) (publish_rows-once takes (suc n) es d.1)
        ∙ sym (once_sent takes e n es x)
    | inr x ↦
        ap (λ rs. publish_rows Data takes rs (e ∷ es)) (pending_waits e n es x)
        ∙ publish_rows-first takes e (pending Data n es) es x
        ∙ ap (with_row takes e) (
            publish_rows-skip takes (answered takes e) (pending Data n es) es
              (pending-Fresh e.row.id n es d.0)
            ∙ ap (λ p. (answered takes e ∷ p.0, p.1)) (publish_rows-once takes n es d.1))
        ∙ sym (once_waits takes e n es x)
  ]

  -- On entries with different ids, a tick of the publisher is one pass: of the first hundred
  -- entries that are not sent, those that the pubsub takes are published, in order, and marked;
  -- the others stay as they are.
  pub tick-once :
      (takes : ℕ → Bool) (o : Outbox Data)
      → Inv o
      → ((tick Data takes o).0.entries ≡ (once takes 100 o.entries).0)
        × ((tick Data takes o).1 ≡ (once takes 100 o.entries).1)
  unfolding tick fetch_pending
  tick-once takes o v =
      let same = publish_rows-once takes 100 o.entries v.distinct in
      (ap (λ p. p.0) same, ap (λ p. p.1) same)
