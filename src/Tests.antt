-- ===== src/Tests.antt =====
-- Examples: the theorems at concrete messages, packets and states.
pub mod Connections
pub mod Chunks
pub mod Media
pub mod Players
pub mod Registry
pub mod Sessions
pub mod Handshakes
pub mod Clients
pub mod Waits
