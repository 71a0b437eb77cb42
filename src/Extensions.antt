-- ===== src/Extensions.antt =====
-- paho/extensions/ and autopaho/: what stands around the client.
pub mod TopicAliases
pub mod MemoryQueue
pub mod Backoff
mod Tests
