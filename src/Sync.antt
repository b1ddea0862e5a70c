-- ===== src/Sync.antt =====
-- src/modules/peer_network/sync: copying the tables of other servers when this one starts.
pub mod Types
pub mod Tables
pub mod Database
pub mod Serve
pub mod Apply
pub mod Ordered
pub mod Validators
pub mod Startup
pub mod Gossip
pub mod Votes
pub mod Examples
