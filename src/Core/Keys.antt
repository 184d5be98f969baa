-- ===== src/Core/Keys.antt =====
-- util.go and keybuilder.go: the keys of limiters and of requests, with the same key of the rule
-- database (store/inmemory/db_inmemory.go). Names are joined by the byte 0x1f.
pub mod Laws
mod Examples
use distributed_rate_limiter.Base.{ℕ, List, [], ◌∷◌, ◌++◌}
use distributed_rate_limiter.Base.Str.{Str}

abbrev pub separator : ℕ
separator = 0x1f

unfoldable pub limiter_pool_key : Str → Str → Str
limiter_pool_key tenant_id resource = tenant_id ++ separator ∷ resource

-- ruleKey
unfoldable pub rule_key : Str → Str → Str
rule_key tenant_id resource = tenant_id ++ separator ∷ resource

-- BuildKey: with a buffer of the pool or without, the bytes are the same.
unfoldable pub build_key : Str → Str → Str → Str
build_key tenant_id user_id resource = tenant_id ++ separator ∷ (user_id ++ separator ∷ resource)
