-- ===== src/Core/Propagation.antt =====
-- cache_invalidator.go, cache_sync_worker.go and store/inmemory/pubsub_inmemory.go: how a change of a
-- rule reaches the caches and the pools of the instances. The decoder of an event (encoding/json) is
-- a parameter; a part that is not configured (nil) is `none`. The goroutines that run the handlers of
-- a message are the deliveries that Publish returns.
pub mod Laws
pub mod Subscriptions
mod Examples
use distributed_rate_limiter.Base.{
  ℕ, ◌+◌, Bool, true, false, not, ◌==◌, if◌then◌else◌, Option, none, some, List, [], ◌∷◌, ◌++◌,
}
use distributed_rate_limiter.Base.Assoc.{Assoc, lookup, insert, remove}
use distributed_rate_limiter.Base.Int.{ℤ}
use distributed_rate_limiter.Base.Str.{Str, is_empty}
use distributed_rate_limiter.Core.Models.{Rule, Result, ok, err, Error, plain}
use distributed_rate_limiter.Core.Pool.Sharded.{LimiterPool, cutover_limiter}
use distributed_rate_limiter.Core.RuleCache.{
  RulesSnapshot, upsert_if_newer, delete_if_older_or_equal, replace_all,
}
use distributed_rate_limiter.Store.Admin.{InvalidationEvent, action_upsert, action_delete}
use distributed_rate_limiter.Store.RuleDb.{RuleDb, get, load_all}

pub record CacheInvalidator : Type 0 where
  pub db : Option RuleDb
  pub rules : Option RulesSnapshot
  pub pool : Option LimiterPool

abbrev cut : Str → Str → Option LimiterPool → Option LimiterPool
cut tenant_id resource none = none
cut tenant_id resource (some pool) = some (cutover_limiter tenant_id resource pool)

abbrev drop_rule : InvalidationEvent → Option RulesSnapshot → Option RulesSnapshot
drop_rule e none = none
drop_rule e (some rules) = some (delete_if_older_or_equal e.tenant_id e.resource e.version rules)

abbrev refresh_rule : Result Rule → Option RulesSnapshot → Option RulesSnapshot
refresh_rule answer none = none
refresh_rule (err x) (some rules) = some rules
refresh_rule (ok r) (some rules) = some (upsert_if_newer (some r) rules)

abbrev refresh_from :
    Option RuleDb → InvalidationEvent → Option RulesSnapshot → Option RulesSnapshot
refresh_from none e rules = rules
refresh_from (some db) e rules = refresh_rule (get db e.tenant_id e.resource) rules

-- The switch on the action of an event.
unfoldable pub apply_event : InvalidationEvent → CacheInvalidator → CacheInvalidator
apply_event e c = elim e.action [
  | action_delete ↦ record c {
    rules = drop_rule e c.rules;
    pool = cut e.tenant_id e.resource c.pool;
  }
  | action_upsert ↦ record c {
    rules = refresh_from c.db e c.rules;
    pool = cut e.tenant_id e.resource c.pool;
  }
]

-- handle; an event with an action of another text is one that does not decode here.
unfoldable pub handle :
    {Data : Type 0} → (Data → Option InvalidationEvent) → Data → CacheInvalidator → CacheInvalidator
unfolding apply_event
handle unmarshal payload c = elim (unmarshal payload) [ none ↦ c | some e ↦ apply_event e c ]

-- One tick of CacheSyncWorker.Start; the in-memory LoadAll does not fail.
unfoldable pub sync : RuleDb → RulesSnapshot → RulesSnapshot
sync db rules = replace_all (load_all db.rules)

-- A subscription is its id, and whether its context is done.
pub record Subscription : Type 0 where
  pub id : ℕ
  pub done : Bool

pub record PubSub : Type 0 where
  pub subs : Assoc (List Subscription)
  pub next : ℕ

unfoldable pub new_pub_sub : PubSub
new_pub_sub = record { subs = []; next = 0 }

abbrev pub subs_of : Str → PubSub → List Subscription
subs_of channel ps = elim (lookup channel ps.subs) [ none ↦ [] | some l ↦ l ]

-- Subscribe, with a handler; the result is the id.
unfoldable pub subscribe : Str → PubSub → PubSub × Result ℕ
subscribe channel ps =
    if is_empty channel
    then (ps, err (plain "channel is required"))
    else (let id = ps.next + 1 in
        (
          record {
            subs = insert channel (record { id = id; done = false } ∷ subs_of channel ps) ps.subs;
            next = id;
          },
          ok id,
        ))

abbrev pub live_ids : List Subscription → List ℕ
live_ids [] = []
live_ids (x ∷ xs) = let rest = live_ids xs in if x.done then rest else x.id ∷ rest

-- Publish: the subscriptions whose handlers are started.
unfoldable pub publish : Str → PubSub → Result (List ℕ)
publish channel ps =
    if is_empty channel
    then err (plain "channel is required")
    else ok (live_ids (subs_of channel ps))

unfoldable pub without_id : ℕ → List Subscription → List Subscription
without_id id [] = []
without_id id (x ∷ xs) = let rest = without_id id xs in if x.id == id then rest else x ∷ rest

abbrev pub keep_channel :
    Str → List Subscription → Assoc (List Subscription) → Assoc (List Subscription)
keep_channel channel [] subs = remove channel subs
keep_channel channel (x ∷ xs) subs = insert channel (x ∷ xs) subs

-- remove, once the context of the subscription is done.
unfoldable pub remove_sub : Str → ℕ → PubSub → PubSub
unfolding without_id
remove_sub channel id ps = elim (lookup channel ps.subs) [
  | none ↦ ps
  | some l ↦ record ps { subs = keep_channel channel (without_id id l) ps.subs }
]
