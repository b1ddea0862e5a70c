-- ===== src/Realtime.antt =====
-- src/modules/realtime: web-socket connections, sessions, rooms and reliable delivery.
pub mod Types
pub mod Keys
pub mod Signature
pub mod Redis
pub mod Connection
pub mod Rooms
pub mod Sessions
pub mod Challenges
pub mod Delivery
pub mod Fanout
pub mod Gateway
pub mod Examples
