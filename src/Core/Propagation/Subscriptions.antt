-- ===== src/Core/Propagation/Subscriptions.antt =====
-- A subscription gets the messages of its channel until it is removed.
use distributed_rate_limiter.Base.{
  ℕ, ◌+◌, ◌≤◌, ◌≡◌, ◌≢◌, refl, ap, ◌∙◌, arith, true, false, ◌==◌, some, List, [], ◌∷◌, All,
}
use distributed_rate_limiter.Base.Assoc.{
  lookup, lookup-insert_self, lookup-insert_ne, lookup-remove_self,
}
use distributed_rate_limiter.Base.Str.{Str, is_empty}
use distributed_rate_limiter.Core.Models.{ok}
use distributed_rate_limiter.Core.Propagation.{
  Subscription, PubSub, subs_of, subscribe, live_ids, publish, without_id, keep_channel, remove_sub,
}

without_new : (n : ℕ) (l : List Subscription) → All (λ x. x.id ≤ n) l → without_id (n + 1) l ≡ l
unfolding without_id
without_new n [] h = refl
without_new n (x ∷ xs) h =
    let other : (x.id == n + 1) ≡ false = ground (arith, h.0) in
    rw (other) (ap (λ t. x ∷ t) (without_new n xs h.1))

subs_of-keep_channel :
    (channel : Str) (l : List Subscription) (ps : PubSub)
    → subs_of channel (record ps { subs = keep_channel channel l ps.subs }) ≡ l
subs_of-keep_channel channel [] ps = rw (lookup-remove_self channel ps.subs, subs_of) refl
subs_of-keep_channel channel (x ∷ xs) ps =
    rw (lookup-insert_self channel (x ∷ xs) ps.subs, subs_of) refl

publish-live :
    (channel : Str) (ps : PubSub)
    → is_empty channel ≡ false
    → publish channel ps ≡ ok (live_ids (subs_of channel ps))
unfolding publish
publish-live channel ps named = rw (named, publish) refl

publish-same :
    (channel : Str) (a b : PubSub)
    → subs_of channel a ≡ subs_of channel b
    → publish channel a ≡ publish channel b
unfolding publish
publish-same channel a b h = ground (arith, h)

module _ (channel other : Str) (ps : PubSub) (named : is_empty channel ≡ false)
    (known : All (λ x. x.id ≤ ps.next) (subs_of channel ps)) where
  subs_of-subscribe :
      subs_of channel (subscribe channel ps).0
      ≡ record { id = ps.next + 1; done = false } ∷ subs_of channel ps
  unfolding subscribe
  subs_of-subscribe =
      rw (named, subscribe)
        (ground (
          arith,
          lookup-insert_self channel
              (record { id = ps.next + 1; done = false } ∷ subs_of channel ps) ps.subs,
        ))

  abbrev added : List Subscription
  added = record { id = ps.next + 1; done = false } ∷ subs_of channel ps

  lookup-subscribe : lookup channel (subscribe channel ps).0.subs ≡ some added
  unfolding subscribe
  lookup-subscribe = rw (named, subscribe) (lookup-insert_self channel added ps.subs)

  subs_of-removed :
      subs_of channel (remove_sub channel (ps.next + 1) (subscribe channel ps).0)
      ≡ subs_of channel ps
  unfolding remove_sub without_id
  subs_of-removed =
      let self : (ps.next + 1 == ps.next + 1) ≡ true = ground arith in
      rw (lookup-subscribe, remove_sub)
        (subs_of-keep_channel channel (without_id (ps.next + 1) added) (subscribe channel ps).0
          ∙ rw (self) (without_new ps.next (subs_of channel ps) known))

  subs_of-other : channel ≢ other → subs_of other (subscribe channel ps).0 ≡ subs_of other ps
  unfolding subscribe
  subs_of-other different =
      rw (named, subscribe)
        (rw (lookup-insert_ne channel other added ps.subs different, subs_of) refl)

  -- A subscription to a channel, with an id above those in use, is first among the deliveries of the
  -- channel, those of another channel are as before, and when it is removed the deliveries of its
  -- channel are those of before.
  pub publish-subscribe :
      (ids : List ℕ)
      → publish channel ps ≡ ok ids
      → channel ≢ other
      → (publish channel (subscribe channel ps).0 ≡ ok ((ps.next + 1) ∷ ids))
        × (publish other (subscribe channel ps).0 ≡ publish other ps)
        × (publish channel (remove_sub channel (ps.next + 1) (subscribe channel ps).0) ≡ ok ids)
  publish-subscribe ids before different =
      let live : live_ids (subs_of channel ps) ≡ ids =
        ground (arith, before, publish-live channel ps named) in
      (
        publish-live channel (subscribe channel ps).0 named
            ∙ ap (λ l. ok (live_ids l)) subs_of-subscribe
            ∙ ap (λ l. ok ((ps.next + 1) ∷ l)) live,
        publish-same other (subscribe channel ps).0 ps (subs_of-other different),
        publish-live channel (remove_sub channel (ps.next + 1) (subscribe channel ps).0) named
            ∙ ap (λ l. ok (live_ids l)) subs_of-removed
            ∙ ap ok live,
      )
