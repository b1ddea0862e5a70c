-- ===== src/Sync/Types.antt =====
-- src/modules/peer_network/sync/types/sync_wire.types.ts. The payload of a row is a parameter.
use open_chat_be.Prelude.{List, String, [], nat_eq, string_eq, ◌∷◌}

pub data SyncTableName : Type 0 where
  server_node server_score_report server_score_aggregate user direct_message : SyncTableName

abbrev pub sync_table_order : List SyncTableName
sync_table_order =
    server_node ∷ server_score_report ∷ server_score_aggregate ∷ user ∷ direct_message ∷ []

pub record SyncRowEnvelope (P : Type 0) : Type 0 where
  pub canonical_hash : String
  pub payload : P
  pub primary_key : String
  pub table : SyncTableName
  pub updated_at : String
