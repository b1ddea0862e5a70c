-- ===== src/DirectMessages/Table.antt =====
-- The queue of direct messages: the queries of src/modules/direct_message/direct_message.service.ts
-- on the table `DirectMessage`, with the database's documented replies, over any database `D`, and
-- what the handlers use of the rest of the program and of the runtime.
use open_chat_be.Prelude.{
  Bool, List, Option, String, [], if◌then◌else◌, keep, map, nat_eq, none, not, or_else, some,
  string_eq, to_set, ℕ, ◌&&◌, ◌==◌, ◌∷◌, ◌≡◌,
}
use open_chat_be.Json.{Value, Items, nil, cons, text, arr, texts_of}
use open_chat_be.Text.{trim, is_empty}
use open_chat_be.DirectMessages.Types.{
  ChatMessageEventPayload, ChatMessageAcceptedPayload, DirectMessage, InterServerDmReplicatePayload,
  InterServerDmDeleteRequestPayload, ReplicateToPeersInput, ReplicateToPeersResult,
}
use open_chat_be.DirectMessages.Signature.{SignatureWorld}
use mathlib.Core.Option

abbrev pub with_replicas : Value → DirectMessage → DirectMessage
with_replicas v row = record row { replica_peer_ids = v }

-- `findUnique`, `upsert` (whose two branches give every column the same value), `update` of one
-- column, `delete` and `deleteMany` by identifier, `deleteMany` by a test, and the rows themselves,
-- in some order, for `findMany`.
pub record MessageTable (D : Type 0) : Type 0 where
  pub find_unique : String → D → Option DirectMessage
  pub upsert : DirectMessage → D → D
  pub update_replicas : String → Value → D → D
  pub delete : String → D → D
  pub delete_many : (DirectMessage → Bool) → D → D
  pub rows : D → List DirectMessage
  pub find-id :
      (id : String) (row : DirectMessage) (d : D) → find_unique id d ≡ some row → row.id ≡ id
  pub find-upsert :
      (row : DirectMessage) (id : String) (d : D)
      → find_unique id (upsert row d) ≡ (if row.id == id then some row else find_unique id d)
  pub find-update_replicas :
      (k : String) (v : Value) (id : String) (d : D)
      → find_unique id (update_replicas k v d)
        ≡ (if k == id then Option.map (with_replicas v) (find_unique id d) else find_unique id d)
  pub find-delete :
      (k id : String) (d : D)
      → find_unique id (delete k d) ≡ (if k == id then none else find_unique id d)
  pub find-delete_many-none :
      (p : DirectMessage → Bool) (id : String) (d : D)
      → find_unique id d ≡ none
      → find_unique id (delete_many p d) ≡ none
  pub find-delete_many-some :
      (p : DirectMessage → Bool) (id : String) (row : DirectMessage) (d : D)
      → find_unique id d ≡ some row
      → find_unique id (delete_many p d) ≡ (if p row then none else some row)

pub record DirectMessageConfig : Type 0 where
  pub retention_days : ℕ
  pub replica_remote_count : ℕ
  pub pull_batch_size : ℕ

pub record UserKeys : Type 0 where
  pub public_key : String
  pub x25519_public_key : Option String

-- The answers that a handler gets while it runs: the runtime's calendar, the table of users, the
-- sessions of this node, and the other servers, which are asked through the peer network.
pub record MessageWorld : Type 0 where
  pub signatures : SignatureWorld
  pub to_iso_string : ℕ → String
  -- `date.setDate(date.getDate() + days)`
  pub add_days : ℕ → ℕ → ℕ
  pub find_user : String → Option UserKeys
  pub has_active_session : String → Bool
  pub local_peer_id : String
  pub select_replica_peer_ids : String → ℕ → List String
  pub replicate : ReplicateToPeersInput → ReplicateToPeersResult
  pub query_user_presence : String → List String → List String
  pub pull_pending : String → List String → List InterServerDmReplicatePayload

pub data MessageEvent : Type 0 where
  chat_message : ChatMessageEventPayload → MessageEvent
  chat_message_accepted : ChatMessageAcceptedPayload → MessageEvent

-- What a handler does outside the table, in order.
pub data Effect : Type 0 where
  emit_to_user : String → MessageEvent → Effect
  replicate_to_peers : ReplicateToPeersInput → Effect
  targeted_delete : InterServerDmDeleteRequestPayload → Effect
  announce_presence : String → List String → Effect

-- a list of texts as a JSON column
pub items_of : List String → Items
items_of [] = nil
items_of (s ∷ ss) = cons (text s) (items_of ss)

unfoldable pub peers_json : List String → Value
unfolding items_of
peers_json ids = arr (items_of ids)

abbrev pub is_peer_id : String → Bool
is_peer_id s = not (is_empty s) && not (s == "unknown_peer")

unfoldable pub normalize_peer_id_list : Value → List String
normalize_peer_id_list (arr vs) = to_set (keep is_peer_id (map trim (texts_of vs)))
normalize_peer_id_list v = []

-- `value?.trim() || fallback`
abbrev pub trimmed_or : Option String → String → String
trimmed_or none fallback = fallback
trimmed_or (some s) fallback = if is_empty (trim s) then fallback else trim s

module _ (world : MessageWorld) (config : DirectMessageConfig) where
  unfoldable pub create_expiry_date : ℕ → ℕ
  create_expiry_date now = world.add_days config.retention_days now

  unfoldable pub create_expiry_date_from_send_time : ℕ → String → ℕ
  create_expiry_date_from_send_time now send_time =
      create_expiry_date (or_else (world.signatures.parse_date send_time) now)

  unfoldable pub map_chat_message_event : DirectMessage → ChatMessageEventPayload
  map_chat_message_event row = record {
    algorithm = row.algorithm;
    expires_at = world.to_iso_string row.expires_at;
    id = row.id;
    message = row.message;
    message_hash = row.message_hash;
    send_time = world.to_iso_string row.send_time;
    sender_public_key = row.sender_public_key;
    sender_signature = row.sender_signature;
    sender_x25519_public_key = row.sender_x25519_public_key;
  }

  unfoldable pub map_chat_message_accepted_event : DirectMessage → ChatMessageAcceptedPayload
  map_chat_message_accepted_event row = record {
    expires_at = world.to_iso_string row.expires_at;
    id = row.id;
    recipient_public_key = row.recipient_public_key;
    send_time = world.to_iso_string row.send_time;
  }

  unfoldable pub map_to_inter_server_replicate_payload :
      DirectMessage → InterServerDmReplicatePayload
  map_to_inter_server_replicate_payload row = record {
    algorithm = row.algorithm;
    id = row.id;
    message = row.message;
    message_hash = row.message_hash;
    origin_server_peer_id = trimmed_or row.origin_server_peer_id world.local_peer_id;
    recipient_public_key = row.recipient_public_key;
    replica_peer_ids = normalize_peer_id_list row.replica_peer_ids;
    send_time = world.to_iso_string row.send_time;
    sender_public_key = row.sender_public_key;
    sender_signature = row.sender_signature;
    sender_x25519_public_key = row.sender_x25519_public_key;
  }
