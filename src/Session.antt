-- ===== src/Session.antt =====
-- paho/session/state/ and paho/store/: the session state of the client.
pub mod MemoryStorer
mod StateTests
pub mod SendQuota
pub mod PacketIds
pub mod Storer
pub mod State
mod Tests
pub mod MemoryStore
