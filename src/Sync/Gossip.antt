-- ===== src/Sync/Gossip.antt =====
-- src/modules/peer_network/sync/services/dm_delete_gossip.service.ts, and its handler and sender in
-- src/modules/peer_network/peer_network.service.ts: servers tell each other that a message was
-- delivered, and delete it. SHA-256, Ed25519 and lower case are parameters.
pub mod Forwarded
use open_chat_be.Prelude.{
  Bool, List, Map, Option, String, false, has, if◌then◌else◌, insert, keep, leb, ltb, max, nat_eq,
  none, not, some, string_eq, true, ℕ, ◌&&◌, ◌*◌, ◌+◌, ◌/◌, ◌==◌, ◌≡◌,
}
use open_chat_be.Results.{Exception, Result, ok, err}
use open_chat_be.Text.{trim, with_hex_prefix}
use open_chat_be.Json.{Value, text, num, fraction, get_field, is_object}
use open_chat_be.DirectMessages.Types.{DirectMessage}
use open_chat_be.DirectMessages.Table.{MessageTable}

pub record DmDeleteGossipEvent : Type 0 where
  pub acked_at : String
  pub event_id : String
  pub hop_count : ℕ
  pub max_hops : ℕ
  pub message_id : String
  pub origin_peer_id : String
  pub recipient_public_key : String
  pub reporter_server_public_key : String
  pub signature : String

pub record GossipWorld : Type 0 where
  pub to_lower_case : String → String
  pub to_iso_string : ℕ → String
  -- the hash of `JSON.stringify` of the event, without its signature
  pub create_event_hash : DmDeleteGossipEvent → String
  pub hash_unsigned :
      (e : DmDeleteGossipEvent) (s : String)
      → create_event_hash (record e { signature = s }) ≡ create_event_hash e
  pub sign_message : String → String
  -- the signature, the hash and the public key; bytes that cannot be read are an exception
  pub verify : String → String → String → Result Bool

-- What becomes of an event: a copy to forward goes with an event that was applied. An exception
-- leaves the handler.
pub data GossipOutcome : Type 0 where
  rejected repeated : GossipOutcome
  applied : Option DmDeleteGossipEvent → GossipOutcome
  failed : Exception → GossipOutcome

infixl 5 ◌>>=◌
-- `null` skips what comes after it.
abbrev ◌>>=◌ : {A B : Type 0} → Option A → (A → Option B) → Option B
none >>= next = none
some a >>= next = next a

module _ (world : GossipWorld) (sync_dedupe_ttl_seconds : ℕ) where
  abbrev pub normalize_hex : String → String
  normalize_hex value = with_hex_prefix (world.to_lower_case (trim value))

  unfoldable pub create_event :
      ℕ → String → String → ℕ → String → String → String → DmDeleteGossipEvent
  create_event now new_id local_peer_id max_hops message_id recipient reporter =
      let unsigned : DmDeleteGossipEvent = record {
        acked_at = world.to_iso_string now;
        event_id = new_id;
        hop_count = 0;
        max_hops = max_hops;
        message_id = message_id;
        origin_peer_id = local_peer_id;
        recipient_public_key = recipient;
        reporter_server_public_key = normalize_hex reporter;
        signature = "";
      } in
      record unsigned {
        signature = normalize_hex (world.sign_message (world.create_event_hash unsigned));
      }

  -- `publish_dm_delete_gossip`
  unfoldable pub publish_dm_delete_gossip :
      ℕ → String → String → ℕ → String → String → String → DmDeleteGossipEvent
  publish_dm_delete_gossip now new_id local_peer_id validator_target message_id recipient
        server_key =
      create_event now new_id local_peer_id (max 1 validator_target) message_id recipient server_key

  abbrev pub number_in : Value → Option ℕ
  number_in (num n) = some n
  number_in (fraction a b) = some (a / b)
  number_in v = none

  abbrev pub text_in : Value → Option String
  text_in (text s) = some s
  text_in v = none

  abbrev pub parsed_fields : Value → Option DmDeleteGossipEvent
  parsed_fields value = do
    acked_at ← text_in (get_field "acked_at" value)
    event_id ← text_in (get_field "event_id" value)
    message_id ← text_in (get_field "message_id" value)
    recipient ← text_in (get_field "recipient_public_key" value)
    origin ← text_in (get_field "origin_peer_id" value)
    reporter ← text_in (get_field "reporter_server_public_key" value)
    signature ← text_in (get_field "signature" value)
    hop_count ← number_in (get_field "hop_count" value)
    max_hops ← number_in (get_field "max_hops" value)
    some (record {
      acked_at = acked_at;
      event_id = event_id;
      hop_count = hop_count;
      max_hops = max 1 max_hops;
      message_id = message_id;
      origin_peer_id = origin;
      recipient_public_key = recipient;
      reporter_server_public_key = normalize_hex reporter;
      signature = normalize_hex signature;
    })

  abbrev pub is_gossip : Option String → Bool
  is_gossip none = false
  is_gossip (some s) = s == "dm.delete.gossip"

  unfoldable pub parse_event : Value → Option DmDeleteGossipEvent
  parse_event value =
      if is_object value && is_gossip (text_in (get_field "type" value))
      then parsed_fields value
      else none

  unfoldable pub verify_event_signature : DmDeleteGossipEvent → Result Bool
  verify_event_signature e =
      world.verify e.signature (world.create_event_hash e) e.reporter_server_public_key

  abbrev pub create_forwarded_event : DmDeleteGossipEvent → DmDeleteGossipEvent
  create_forwarded_event e = record e { hop_count = e.hop_count + 1 }

  abbrev pub can_forward : DmDeleteGossipEvent → Bool
  can_forward e = ltb e.hop_count e.max_hops

  unfoldable pub cleanup_dedupe_cache : ℕ → Map String ℕ → Map String ℕ
  cleanup_dedupe_cache now m = keep (λ (entry : String × ℕ). not (leb entry.1 now)) m

  unfoldable pub should_process_event : ℕ → String → Map String ℕ → Bool × Map String ℕ
  should_process_event now event_id m =
      let kept = cleanup_dedupe_cache now m in
      if has event_id kept
      then (false, kept)
      else (true, insert event_id (now + sync_dedupe_ttl_seconds * 1000) kept)

  -- The servers that an event is sent to.
  abbrev pub broadcast_targets : List String → String → List String
  broadcast_targets connected exclude_peer_id = keep (λ p. not (p == exclude_peer_id)) connected

  module _ {D : Type 0} (table : MessageTable D) where
    unfoldable pub apply_event : DmDeleteGossipEvent → D → GossipOutcome × D
    apply_event e d = (
      applied (if can_forward e then some (create_forwarded_event e) else none),
      table.delete_many (λ (r : DirectMessage). r.id == e.message_id) d,
    )

    unfoldable pub handle_event :
        ℕ → DmDeleteGossipEvent → Map String ℕ → D → GossipOutcome × Map String ℕ × D
    unfolding apply_event
    handle_event now e m d =
        let (fresh, m') = should_process_event now e.event_id m in
        if not fresh then (repeated, m', d) else elim (verify_event_signature e) [
          | err thrown ↦ (failed thrown, m', d)
          | ok false ↦ (rejected, m', d)
          | ok true ↦ let (outcome, d') = apply_event e d in (outcome, m', d')
        ]

    -- The handler of the protocol.
    unfoldable pub handle_dm_delete_gossip :
        ℕ → Value → Map String ℕ → D → GossipOutcome × Map String ℕ × D
    handle_dm_delete_gossip now value m d = elim (parse_event value) [
      | none ↦ (rejected, m, d)
      | some e ↦ handle_event now e m d
    ]
