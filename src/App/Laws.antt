-- ===== src/App/Laws.antt =====
-- The configuration with which an application runs.
use distributed_rate_limiter.Base.{◌≡◌, true, false, ◌&&◌}
use distributed_rate_limiter.Base.Int.{pos, ◌<ℤ◌}
use distributed_rate_limiter.Base.Str.{is_empty}
use distributed_rate_limiter.Config.{Config}

-- What an application relies on in its configuration.
pub record Runnable {F : Type 0} (cfg : Config F) : Type 0 where
  pub in_region : is_empty cfg.region ≡ false
  pub grouped : is_empty cfg.region_group ≡ false
  pub channelled : is_empty cfg.channel ≡ false
  pub grpc_reachable : is_empty cfg.grpc_listen_addr ≡ false
  pub http_reachable : (cfg.enable_http && is_empty cfg.http_listen_addr) ≡ false
  pub guarded : (cfg.enable_auth && is_empty cfg.admin_token) ≡ false
  pub reads_end : pos 0 <ℤ cfg.http_read_timeout
  pub writes_end : pos 0 <ℤ cfg.http_write_timeout
  pub idles_end : pos 0 <ℤ cfg.http_idle_timeout
  pub kept_alive : pos 0 <ℤ cfg.grpc_keep_alive
  pub requests_end : pos 0 <ℤ cfg.request_timeout
  pub drains_end : pos 0 <ℤ cfg.drain_timeout
  pub bodies_bounded : pos 0 <ℤ cfg.max_body_bytes
  pub coalesces : cfg.coalesce_enabled ≡ true
  pub owns_alone : cfg.global_ownership_fallback ≡ true
