-- ===== src/DirectMessages/Types.antt =====
-- src/modules/direct_message/types/direct_message.types.ts, the row of the table `DirectMessage` of
-- prisma/schema.prisma less the date of its creation, which the code never reads, and
-- src/modules/peer_network/types/inter_server_dm.types.ts. A date in a row is in milliseconds.
use open_chat_be.Prelude.{Bool, List, Option, String, nat_eq, string_eq, ℕ}
use open_chat_be.Json.{Value}

pub record ChatMessageSendPayload : Type 0 where
  pub algorithm : String
  pub id : String
  pub message : String
  pub message_hash : String
  pub recipient_public_key : String
  pub sender_signature : String
  pub send_time : String

pub record ChatMessageEventPayload : Type 0 where
  pub algorithm : String
  pub expires_at : String
  pub id : String
  pub message : String
  pub message_hash : String
  pub send_time : String
  pub sender_public_key : String
  pub sender_signature : String
  pub sender_x25519_public_key : String

pub record ChatMessageAcceptedPayload : Type 0 where
  pub expires_at : String
  pub id : String
  pub recipient_public_key : String
  pub send_time : String

pub record DirectMessage : Type 0 where
  pub algorithm : String
  pub expires_at : ℕ
  pub id : String
  pub is_replica_copy : Bool
  pub message : String
  pub message_hash : String
  pub origin_server_peer_id : Option String
  pub recipient_public_key : String
  pub replica_peer_ids : Value
  pub send_time : ℕ
  pub sender_public_key : String
  pub sender_signature : String
  pub sender_x25519_public_key : String

pub record InterServerDmReplicatePayload : Type 0 where
  pub algorithm : String
  pub id : String
  pub message : String
  pub message_hash : String
  pub origin_server_peer_id : String
  pub recipient_public_key : String
  pub replica_peer_ids : List String
  pub send_time : String
  pub sender_public_key : String
  pub sender_signature : String
  pub sender_x25519_public_key : String

pub record InterServerDmReplicateAckPayload : Type 0 where
  pub id : String
  pub stored : Bool

pub record InterServerDmPullRequestPayload : Type 0 where
  pub cursor : Option String
  pub limit : ℕ
  pub public_key : String

pub record InterServerDmPullResponsePayload : Type 0 where
  pub items : List InterServerDmReplicatePayload
  pub next_cursor : Option String
  pub public_key : String

pub record InterServerDmDeleteRequestPayload : Type 0 where
  pub message_id : String
  pub origin_server_peer_id : String
  pub recipient_public_key : String
  pub replica_peer_ids : List String

pub record InterServerDmDeleteAckPayload : Type 0 where
  pub deleted : Bool
  pub message_id : String

pub record ReplicateToPeersInput : Type 0 where
  pub payload : InterServerDmReplicatePayload
  pub peer_ids : List String
  pub require_quorum : Bool

pub record ReplicateToPeersResult : Type 0 where
  pub acknowledged_peer_ids : List String
  pub failed_peer_ids : List String
  pub quorum_met : Bool
