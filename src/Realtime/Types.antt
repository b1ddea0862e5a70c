-- ===== src/Realtime/Types.antt =====
-- src/modules/realtime/types/realtime.types.ts. A date in ISO text is the number of milliseconds
-- that it stands for, and a web socket is the number that tells it from the others.
use open_chat_be.Prelude.{Bool, List, Option, String, nat_eq, string_eq, ℕ}

pub record ReliableEnvelope (P : Type 0) : Type 0 where
  pub ack_timeout_ms : ℕ
  pub attempt : ℕ
  pub event_id : String
  pub payload : P
  pub requires_ack : Bool
  pub room_id : Option String
  pub sent_at : ℕ
  pub type : String

pub record ReliableEnvelopeInput (P : Type 0) : Type 0 where
  pub ack_timeout_ms : Option ℕ
  pub event_id : Option String
  pub payload : P
  pub requires_ack : Option Bool
  pub room_id : Option String
  pub type : String

pub record AuthChallengeRecord : Type 0 where
  pub challenge_id : String
  pub created_at : ℕ
  pub expires_at : ℕ
  pub nonce : String
  pub public_key : String

pub record AuthConnectPayload : Type 0 where
  pub challenge_id : String
  pub last_session_id : Option String
  pub public_key : String
  pub signature : String

pub data SessionStatus : Type 0 where
  active disconnected : SessionStatus

pub record RealtimeSessionRecord : Type 0 where
  pub connected_at : ℕ
  pub last_seen_at : ℕ
  pub node_id : String
  pub public_key : String
  pub reconnect_expires_at : ℕ
  pub session_id : String
  pub status : SessionStatus

pub data RoomControlMessage : Type 0 where
  join leave : Option String → String → RoomControlMessage
  replace : Option (List String) → String → RoomControlMessage

pub record RoomFanoutMessage (P : Type 0) : Type 0 where
  pub envelope : ReliableEnvelope P
  pub origin_node_id : String
  pub room_name : String

-- What is written to a socket: an envelope, or one of the system frames.
pub data Frame (P : Type 0) : Type 0 where
  envelope : ReliableEnvelope P → Frame P
  connected : String → Bool → List String → String → Frame P
  error : String → Frame P
  retry_exhausted : String → String → Frame P

-- What the server does to a socket.
pub data Output (P : Type 0) : Type 0 where
  send : ℕ → Frame P → Output P
  ping : ℕ → Output P
  close : ℕ → ℕ → String → Output P
  terminate : ℕ → Output P
