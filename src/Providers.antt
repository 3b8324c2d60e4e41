-- ===== src/Providers.antt =====
-- providers: the storage providers behind the primitives.
pub mod KeyPath
pub mod SqliteKv
pub mod SqliteQueue
pub mod TenantGuard
pub mod GuardedProviders
