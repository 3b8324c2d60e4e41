-- ===== src/Runtime.antt =====
-- runtime: the limits of one invocation of a function, the choice of its route, the addresses that
-- it may reach, the cache of the routing snapshot, and the schedules.
pub mod OperationCounter
pub mod KillEnforcer
pub mod RouteMatcher
pub mod Ipv4Address
pub mod Ipv6Address
pub mod EgressIpBlocker
pub mod SnapshotCache
pub mod CronMatcher
