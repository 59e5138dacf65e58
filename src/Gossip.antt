-- ===== src/Gossip.antt =====
-- internal/gossip: the gossip engine and the three tables that it keeps.
pub mod Seen
pub mod KeyRing
pub mod Limiter
pub mod State
pub mod Engine
pub mod Concurrent
