-- ===== src/Store.antt =====
-- internal/ratelimit/store/inmemory: the in-memory implementations of the stores.
pub mod Redis
pub mod RuleDb
pub mod Outbox
pub mod Admin
