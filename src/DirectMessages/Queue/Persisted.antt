-- ===== src/DirectMessages/Queue/Persisted.antt =====
-- The confirmation of a recipient that it has kept a message.
use open_chat_be.Prelude.{
  Option-cases, String, arith, beq_refl, inl, inr, nat_eq, none, some, string_eq, true, ◌≡◌, ◌≢◌,
}
use open_chat_be.Results.{ok, Result-cases}
use open_chat_be.Json.{Value}
use open_chat_be.DirectMessages.Types.{DirectMessage}
use open_chat_be.DirectMessages.Signature.{parse_chat_message_persisted_payload}
use open_chat_be.DirectMessages.Table.{MessageTable, DirectMessageConfig, MessageWorld}
use open_chat_be.DirectMessages.Queue.{deleted_ack, delete_persisted, handle_chat_message_persisted}

module _ (world : MessageWorld) (config : DirectMessageConfig) {D : Type 0}
    (table : MessageTable D) where
  -- A confirmation never removes or changes a message for somebody else, whatever it says.
  pub handle_chat_message_persisted-foreign :
      (recipient : String) (value : Value) (id : String) (row : DirectMessage) (d : D)
      → table.find_unique id d ≡ some row
      → row.recipient_public_key ≢ recipient
      → table.find_unique id (handle_chat_message_persisted world config table recipient value d).1
        ≡ some row
  unfolding handle_chat_message_persisted delete_persisted
  handle_chat_message_persisted-foreign recipient value id row d found foreign =
      elim (Result-cases (parse_chat_message_persisted_payload value)) [
        | inr (e, bad) ↦ cc (bad, found)
        | inl (k, parsed) ↦ elim (Option-cases (table.find_unique k d)) [
          | inl missing ↦ cc (parsed, missing, found)
          | inr (r, there) ↦ ground (
            arith,
            parsed,
            there,
            table.find-delete k id d,
            string_eq.beq_iff k id,
            string_eq.beq_iff r.recipient_public_key recipient,
          )
        ]
      ]

  -- If a confirmation is answered with success, then the message that it names is not in the queue.
  pub handle_chat_message_persisted-gone :
      (recipient : String) (value : Value) (id : String) (d : D)
      → (handle_chat_message_persisted world config table recipient value d).0
        ≡ ok (deleted_ack true id)
      → (parse_chat_message_persisted_payload value ≡ ok id)
        × (table.find_unique id
              (handle_chat_message_persisted world config table recipient value d).1
            ≡ none)
  unfolding handle_chat_message_persisted delete_persisted
  handle_chat_message_persisted-gone recipient value id d h =
      elim (Result-cases (parse_chat_message_persisted_payload value)) [
        | inr (e, bad) ↦ absurd (cc (bad, h))
        | inl (k, parsed) ↦ elim (Option-cases (table.find_unique k d)) [
          | inl missing ↦ (ground (arith, parsed, missing), ground (arith, parsed, missing))
          | inr (r, there) ↦ (
            ground (arith, parsed, there),
            ground (arith, parsed, there, table.find-delete k id d, beq_refl k),
          )
        ]
      ]
