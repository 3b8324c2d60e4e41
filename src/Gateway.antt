-- ===== src/Gateway.antt =====
-- apps/gateway: what stands in front of the runtimes.
pub mod RateLimiter
