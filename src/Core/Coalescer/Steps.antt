-- ===== src/Core/Coalescer/Steps.antt =====
-- Every action of a caller keeps the invariant of the shard.
use distributed_rate_limiter.Base.{
  ℕ, ◌+◌, ◌<◌, ◌≡◌, ◌≢◌, refl, arith, true, false, ◌==◌, Option, none, some, Bool-cases,
  Option-cases, inl, inr, ap, sym, ◌∙◌,
}
use mathlib.Core.Path.{subst}
use distributed_rate_limiter.Core.Models.{context_done}
use distributed_rate_limiter.Base.Assoc.{Assoc, lookup, insert, lookup-insert, lookup-remove}
use distributed_rate_limiter.Base.Int.{ℤ}
use distributed_rate_limiter.Base.Str.{Str}
use distributed_rate_limiter.Core.Coalescer.{
  Answer, Coalesced, Caller, outside, leading, leaving, waiting, returned, gave_up, CoalescerShard,
  at_point, put_entry, joinable, enter, set_result, forget, Action, enters, finishes, leaves, wakes,
  cancels, result_of, act,
}
use distributed_rate_limiter.Core.Coalescer.Laws.{Placed, leads, calls, Inv, grow, answer}

-- A caller that leads nothing more than before goes to another point.
move :
    (s : CoalescerShard) (c : ℕ) (x : Caller)
    → Placed s.next s.cell x
    → ((p : ℕ) → leads p x ≡ true → leads p (s.caller c) ≡ true)
    → ((p : ℕ) → calls p (s.caller c) ≡ false)
    → Inv s
    → Inv (record s { caller = at_point c x s.caller })
move s c x h n i v = record {
  known = v.known;
  free = v.free;
  made = v.made;
  placed = λ d. elim (Bool-cases (c == d)) [ inl e ↦ rw (e) h | inr e ↦ rw (e) (v.placed d) ];
  one_leader =
      λ d e p. ground (arith, v.one_leader d e p, v.one_leader c e p, v.one_leader d c p, n p);
  led = λ p b r. let (d, l) = v.led p b r in (d, ground (arith, l, i p));
}

forget-lookup :
    (key j : Str) (p q : ℕ) (m : Assoc ℕ) → lookup j (forget key p m) ≡ some q → lookup j m ≡ some q
forget-lookup key j p q m h = elim (Option-cases (lookup key m)) [
  | inl e ↦ ground (arith, h, e)
  | inr (r, e) ↦ ground (arith, h, e, lookup-remove key j m)
]

forgets : (s : CoalescerShard) (key : Str) (p : ℕ) → Inv s → Inv (record s { m = forget key p s.m })
forgets s key p v = record {
  known = λ k q h. v.known k q (forget-lookup key k p q s.m h);
  free = v.free;
  made = v.made;
  placed = v.placed;
  one_leader = v.one_leader;
  led = v.led;
}

leads-below :
    (next p : ℕ) (cell : ℕ → Option Coalesced) (x : Caller)
    → Placed next cell x
    → leads p x ≡ true
    → p < next
leads-below next p cell outside h l = ground (arith, l)
leads-below next p cell (leading key q) h l = ground (arith, l, h.0)
leads-below next p cell (leaving key q a) h l = ground (arith, l, h.0)
leads-below next p cell (waiting q) h l = ground (arith, l)
leads-below next p cell (returned q a) h l = ground (arith, l)
leads-below next p cell (gave_up a) h l = ground (arith, l)

opens :
    (s : CoalescerShard) (c now : ℕ) (key : Str)
    → ((p : ℕ) → calls p (s.caller c) ≡ false)
    → Inv s
    → Inv (record s {
      m = insert key s.next s.m;
      next = s.next + 1;
      cell = put_entry s.next (record { created = now; result = none }) s.cell;
      caller = at_point c (leading key s.next) s.caller;
    })
opens s c now key i v = record {
  known = λ k p. ground (arith, lookup-insert key k s.next s.m, v.known k p);
  free = λ p. ground (arith, v.free p);
  made = λ p h. elim (Bool-cases (s.next == p)) [
    | inl e ↦ rw (e) (_, refl)
    | inr e ↦ rw (e) (v.made p (ground (arith, h, e)))
  ];
  placed = λ d. elim (Bool-cases (c == d)) [
    | inl e ↦ rw (e) (omega arith, ground arith)
    | inr e ↦ rw (e) (grow s.next s.cell _ (s.caller d) (v.placed d))
  ];
  one_leader = λ d e p. ground (
    arith,
    v.one_leader d e p,
    leads-below s.next p s.cell (s.caller d) (v.placed d),
    leads-below s.next p s.cell (s.caller e) (v.placed e),
  );
  led = λ p b r. elim (Bool-cases (s.next == p)) [
    | inl e ↦ (c, ground (arith, e))
    | inr e ↦
        let (d, l) = v.led p (ground (arith, b, e)) (ground (arith, r, e)) in
        (d, ground (arith, l, i p))
  ];
}

-- The function of the caller `c` ends.
ends :
    (s : CoalescerShard) (c p : ℕ) (key : Str) (a : Answer)
    → s.caller c ≡ leading key p
    → Inv s
    → Inv
        (record s { cell = set_result p a s.cell; caller = at_point c (leaving key p a) s.caller })
ends s c p key a here v =
    let at_c : Placed s.next s.cell (leading key p) =
      subst (λ x. Placed s.next s.cell x) here (v.placed c) in
    let (e, found) = v.made p at_c.0 in
    let fresh : e.result ≡ none = ap result_of (sym found) ∙ at_c.1 in
    let mine : leads p (s.caller c) ≡ true = rw (here) (ground arith) in
    rw (found, set_result)
      (record {
        known = v.known;
        free = λ q. ground (arith, v.free q, at_c.0);
        made = λ q h. elim (Bool-cases (p == q)) [
          | inl t ↦ rw (t) (_, refl)
          | inr t ↦ rw (t) (v.made q h)
        ];
        placed = λ d. elim (Bool-cases (c == d)) [
          | inl t ↦ rw (t) (at_c.0, ground arith)
          | inr t ↦ rw (t) (
              answer s.next p a s.cell e (s.caller d) found fresh
                (ground (arith, t, mine, v.one_leader c d p)) (v.placed d))
        ];
        one_leader = λ d f q.
            ground (arith, v.one_leader d f q, v.one_leader c f q, v.one_leader d c q, here);
        led = λ q b r.
            let other : p ≢ q = λ e. ground (arith, r, e) in
            let (d, l) = v.led q b (ground (arith, r, other)) in
            (d, ground (arith, l, here, other));
      })

joinable-known :
    (ttl : ℤ) (key : Str) (now p : ℕ) (s : CoalescerShard)
    → joinable ttl key now s ≡ some p
    → lookup key s.m ≡ some p
unfolding joinable
joinable-known ttl key now p s h = ground (arith, h)

enter-Inv :
    (ttl : ℤ) (c : ℕ) (key : Str) (now : ℕ) (s : CoalescerShard)
    → ((p : ℕ) → calls p (s.caller c) ≡ false)
    → Inv s
    → Inv (enter ttl c key now s)
unfolding enter
enter-Inv ttl c key now s i v = elim (Option-cases (joinable ttl key now s)) [
  | inl e ↦ rw (e, enter) (opens s c now key i v)
  | inr (p, e) ↦
      rw (e, enter)
        (move s c (waiting p) (v.known key p (joinable-known ttl key now p s e))
          (λ q h. ground (arith, h)) i v)
]

some_inj : {s t : CoalescerShard} → some s ≡ some t → s ≡ t
some_inj h = ground (arith, h)

pub act-Inv :
    (ttl : ℤ) (c : ℕ) (a : Action) (x : Caller) (s t : CoalescerShard)
    → s.caller c ≡ x
    → act ttl c a x s ≡ some t
    → Inv s
    → Inv t
act-Inv ttl c (enters key now) outside s t at h v =
    let e : enter ttl c key now s ≡ t = ground (arith, h) in
    rw (← e) (enter-Inv ttl c key now s (λ q. ground (arith, at)) v)
act-Inv ttl c (finishes a) (leading key p) s t at h v =
    subst (λ z. Inv z) (some_inj h) (ends s c p key a at v)
act-Inv ttl c leaves (leaving key p a) s t at h v =
    let placed = subst (λ x. Placed s.next s.cell x) at (v.placed c) in
    subst (λ z. Inv z) (some_inj h)
      (forgets (record s { caller = at_point c (returned p a) s.caller }) key p
        (move s c (returned p a) placed (λ q l. ground (arith, l)) (λ q. ground (arith, at)) v))
act-Inv ttl c wakes (waiting p) s t at h v = elim (Option-cases (result_of (s.cell p))) [
  | inl e ↦ ground (arith, h, e)
  | inr (a, e) ↦
      let below : p < s.next = subst (λ x. Placed s.next s.cell x) at (v.placed c) in
      let goes : some (record s { caller = at_point c (returned p a) s.caller }) ≡ some t =
        ground (arith, h, e) in
      subst (λ z. Inv z) (some_inj goes)
        (move s c (returned p a) (below, e) (λ q l. ground (arith, l)) (λ q. ground (arith, at)) v)
]
act-Inv ttl c cancels (waiting p) s t at h v =
    subst (λ z. Inv z) (some_inj h)
      (move s c (gave_up (none, some context_done)) tt (λ q l. ground (arith, l))
        (λ q. ground (arith, at)) v)
act-Inv ttl c a x s t at h v = ground (arith, h)
