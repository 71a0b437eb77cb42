-- ===== src/Client.antt =====
-- paho/: parts of the client around the session.
pub mod AcksTracker
pub mod Pinger
pub mod Router
pub mod Conversions
pub mod Negotiated
pub mod Sending
pub mod Handlers
pub mod Running
mod Tests
mod RunningTests
mod SendingTests
