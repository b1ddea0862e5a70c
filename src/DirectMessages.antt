-- ===== src/DirectMessages.antt =====
-- src/modules/direct_message: the queue of messages, its clients and the other servers.
pub mod Types
pub mod Signature
pub mod Table
pub mod Queue
pub mod Send
pub mod Remote
pub mod Examples
