-- ===== src/Transport/Http/Laws.antt =====
-- What a refused request leaves as it was.
use distributed_rate_limiter.Base.{
  ℕ, ◌≡◌, ◌≢◌, refl, ap, sym, ◌∙◌, arith, ◌⊎◌, inl, inr, Bool, true, false, ◌||◌, ◌++◌, Option,
  none, some, Option-cases, Bool-cases,
}
use distributed_rate_limiter.Base.Int.{ℤ, pos, leb_ℤ}
use distributed_rate_limiter.Base.Str.{Str, bytes, str_eq_ne, is_empty}
use distributed_rate_limiter.Core.Models.{
  CheckLimitRequest, CheckLimitResponse, CreateRuleRequest, Result, ok, err, Error,
}
use distributed_rate_limiter.Core.Limiter.{World}
use distributed_rate_limiter.Core.Drain.{InFlight, begin}
use distributed_rate_limiter.Core.RedisClient.{RedisClient}
use distributed_rate_limiter.Core.Handler.{
  RateLimitHandler, Circumstances, invalid, in_flight_of, check_limit, serve,
}
use distributed_rate_limiter.Store.Admin.{AdminHandler, InvalidationEvent}
use distributed_rate_limiter.Transport.Http.{
  HttpCheckRequest, HttpRequest, HttpTransport, Decoder, Method, method_get, method_post,
  method_put, method_delete, method_other, empty_body, decode_json, check_answer, check_decoded,
  handle_check, authorize_admin, to_check_limit_request, reply,
}
use distributed_rate_limiter.Transport.Http.Admin.{
  handle_rules, handle_rules_list, unauthorized_reply,
}

not-authorized :
    (t : HttpTransport) (r : HttpRequest)
    → t.enable_auth ≡ true
    → r.authorization ≢ bytes "Bearer " ++ t.admin_token
    → authorize_admin t r ≡ false
unfolding authorize_admin
not-authorized t r on other = rw (on, authorize_admin) (str_eq_ne r.authorization _ other)

module _ (Data : Type 0) (hash : CreateRuleRequest → Str)
    (marshal : InvalidationEvent → Result Data) (t : HttpTransport) (decoder : Decoder) where
  -- With authentication on, a request to an admin route without the bearer token, whatever its method,
  -- query and body, changes no rule and is told nothing of the rules: it is answered 401, or 405 by
  -- the listing of the rules.
  pub handle_rules-unauthorized :
      (now later : ℕ) (r : HttpRequest) (h : AdminHandler Data)
      → t.enable_auth ≡ true
      → r.authorization ≢ bytes "Bearer " ++ t.admin_token
      → (handle_rules Data hash marshal t decoder now later r h ≡ (h, unauthorized_reply))
        × ((handle_rules_list Data hash marshal t decoder r h ≡ unauthorized_reply)
            ⊎ (handle_rules_list Data hash marshal t decoder r h ≡ reply 405 empty_body))
  unfolding handle_rules handle_rules_list
  handle_rules-unauthorized now later r h on other =
      let no = not-authorized t r on other in (rw (no, handle_rules) refl, listing r.method refl)
    where
      listing :
          (m : Method)
          → r.method ≡ m
          → (handle_rules_list Data hash marshal t decoder r h ≡ unauthorized_reply)
            ⊎ (handle_rules_list Data hash marshal t decoder r h ≡ reply 405 empty_body)
      listing method_get e = inl (rw (e, not-authorized t r on other, handle_rules_list) refl)
      listing method_post e = inr (rw (e, handle_rules_list) refl)
      listing method_put e = inr (rw (e, handle_rules_list) refl)
      listing method_delete e = inr (rw (e, handle_rules_list) refl)
      listing method_other e = inr (rw (e, handle_rules_list) refl)

module _ (R : RedisClient) (t : HttpTransport) (decoder : Decoder) where
  serve-turned_away :
      (c : Circumstances R) (req : CheckLimitRequest) (s : RateLimitHandler R) (f : InFlight × Bool)
      (e : Error)
      → (serve R c req f s).1 ≡ err e
      → (serve R c req f s).0.world ≡ s.world
  unfolding serve
  serve-turned_away c req s (f, false) e h = refl
  serve-turned_away c req s (f, true) e h = ground (arith, h)

  check_limit-turned_away :
      (c : Circumstances R) (req : CheckLimitRequest) (s : RateLimitHandler R) (e : Error)
      → (check_limit R c (some req) s).1 ≡ err e
      → (check_limit R c (some req) s).0.world ≡ s.world
  unfolding check_limit
  check_limit-turned_away c req s e h = elim (Option-cases (invalid req)) [
    | inr (x, bad) ↦ rw (bad, check_limit) refl
    | inl valid ↦ elim (Bool-cases s.initialized) [
      | inr unset ↦ rw (valid, unset, check_limit) refl
      | inl ready ↦
          let entered : check_limit R c (some req) s
              ≡ serve R c req (begin (in_flight_of s.inflight)) s =
            ground (arith, valid, ready) in
          ap (λ x. x.0.world) entered
          ∙ serve-turned_away c req s (begin (in_flight_of s.inflight)) e
              (ap (λ x. x.1) (sym entered) ∙ h)
    ]
  ]

  answered :
      (took : ℤ) (w : World R) (x : RateLimitHandler R × Result CheckLimitResponse)
      → ((e : Error) → x.1 ≡ err e → x.0.world ≡ w)
      → (check_answer R t decoder took x).1.status ≢ 200
      → (check_answer R t decoder took x).0.world ≡ w
  answered took w (s, err e) h n = h e refl
  answered took w (s, ok resp) h n = ground (arith, n)

  check_decoded-unserved :
      (c : Circumstances R) (took : ℤ) (o : Option HttpCheckRequest) (s : RateLimitHandler R)
      → (check_decoded R t decoder c took o s).1.status ≢ 200
      → (check_decoded R t decoder c took o s).0.world ≡ s.world
  unfolding check_decoded
  check_decoded-unserved c took none s n = refl
  check_decoded-unserved c took (some req) s n =
      elim (Bool-cases (
        is_empty req.tenant_id
        || is_empty req.user_id
        || is_empty req.resource
        || leb_ℤ req.cost (pos 0))) [
          | inl bad ↦ ground (arith, bad)
          | inr fine ↦
              let whole = check_limit R c (some (to_check_limit_request req)) s in
              let entered : check_decoded R t decoder c took (some req) s
                  ≡ check_answer R t decoder took whole =
                ground (arith, fine) in
              ap (λ x. x.0.world) entered
              ∙ answered took s.world whole
                  (λ e h. check_limit-turned_away c (to_check_limit_request req) s e h)
                  (λ h. n (ap (λ x. x.1.status) entered ∙ h))
        ]

  -- A check that is not answered 200 has charged nothing: the redis, the circuit breaker, the mode
  -- and the local counters are as before the request.
  pub handle_check-unserved :
      (c : Circumstances R) (took : ℤ) (r : HttpRequest) (s : RateLimitHandler R)
      → (handle_check R t decoder c took r s).1.status ≢ 200
      → (handle_check R t decoder c took r s).0.world ≡ s.world
  unfolding handle_check
  handle_check-unserved c took r s n = go r.method refl
    where
      go : (m : Method) → r.method ≡ m → (handle_check R t decoder c took r s).0.world ≡ s.world
      go method_post e =
          let entered : handle_check R t decoder c took r s
              ≡ check_decoded R t decoder c took (decode_json t decoder.check r) s =
            rw (e, handle_check) refl in
          ap (λ x. x.0.world) entered
          ∙ check_decoded-unserved c took (decode_json t decoder.check r) s
              (λ h. n (ap (λ x. x.1.status) entered ∙ h))
      go method_get e = rw (e, handle_check) refl
      go method_put e = rw (e, handle_check) refl
      go method_delete e = rw (e, handle_check) refl
      go method_other e = rw (e, handle_check) refl
