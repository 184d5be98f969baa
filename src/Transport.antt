-- ===== src/Transport.antt =====
-- internal/ratelimit/transport: the two transports.
pub mod Http
pub mod Grpc
pub mod Agreement
mod Examples
