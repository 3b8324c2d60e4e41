-- ===== src/Policy.antt =====
-- packages/policy: the reliability and admission policies.
pub mod CircuitBreaker
pub mod RateLimiter
pub mod Retry
pub mod Permissions
