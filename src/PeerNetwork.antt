-- ===== src/PeerNetwork.antt =====
-- src/modules/peer_network/peer_network.service.ts: the copies of messages on other servers, the
-- events of other servers that were seen, the scores of peers, and the reports on them.
pub mod Replicas
pub mod Retries
pub mod Quorum
pub mod Seen
pub mod Scores
pub mod Reports
pub mod Examples
