-- ===== src/Core.antt =====
-- internal/ratelimit/core: one child for each file, or for the files of one mechanism.
pub mod Models
pub mod Clock
pub mod Window
pub mod Circuit
pub mod Membership
pub mod Mode
pub mod Ownership
pub mod Fallback
pub mod RedisClient
pub mod Limiter
pub mod RuleCache
pub mod Drain
pub mod Keys
pub mod Lru
pub mod Batch
pub mod Pool
pub mod Coalescer
pub mod Handler
pub mod Propagation
