-- ===== src/Protocol.antt =====
-- packages/protocol: what the control plane and the data plane exchange.
pub mod RoutingSnapshot
pub mod SnapshotDistributor
