-- ===== src/Core.antt =====
-- packages/core: the utilities that the other parts share.
pub mod Ulid
