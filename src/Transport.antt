-- ===== src/Transport.antt =====
-- internal/transport: frames, connected peers and peer discovery.
pub mod Frame
pub mod Noise
pub mod State
pub mod Peers
pub mod Discovery
pub mod Exchange
pub mod Dials
pub mod Hello
pub mod Chat
pub mod Connections
