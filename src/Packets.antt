-- ===== src/Packets.antt =====
-- packets/: the wire format of MQTT v5.
pub mod Result
pub mod Types
pub mod Wire
pub mod Properties
pub mod Acks
pub mod Replies
pub mod Requests
pub mod Connecting
pub mod Control
mod Tests
