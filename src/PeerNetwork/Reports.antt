-- ===== src/PeerNetwork/Reports.antt =====
-- src/modules/peer_network/peer_network.service.ts, with utils/server_score_signature.util.ts and
-- types/server_score.types.ts: the reports on other servers that a server is sent, which of them it
-- keeps, and the mean scores that it makes of them. SHA-256, Ed25519, lower case and the calendar
-- are parameters.
pub mod Aggregates
pub mod Incoming
use open_chat_be.Prelude.{
  Bool, IsSortedBy, List, Option, String, [], false, if◌then◌else◌, is_some, keep, leb, ltb,
  nat_beq, nat_eq, none, not, some, string_eq, true, ℕ, ◌&&◌, ◌*◌, ◌+◌, ◌/◌, ◌==◌, ◌||◌, ◌∷◌, ◌≡◌,
}
use mathlib.Core.List.{Perm}
use open_chat_be.Text.{
  trim, is_empty, has_hex_prefix, all_hex, drop_two, count_chars, with_hex_prefix,
}
use open_chat_be.Json.{fraction, Value, text, num, get_field, is_object}
use open_chat_be.Results.{Result, ok}
use open_chat_be.Sync.Tables.{ServerScoreReport}

pub record ServerScoreReportPayload : Type 0 where
  pub expires_at : String
  pub observed_at : String
  pub payload_hash : String
  pub reporter_peer_id : String
  pub reporter_server_public_key : String
  pub score : ℕ
  pub signature : String
  pub target_peer_id : String

-- The message of a refusal, or the payload.
pub data ServerScoreReportValidationResult : Type 0 where
  invalid : String → ServerScoreReportValidationResult
  valid : ServerScoreReportPayload → ServerScoreReportValidationResult

pub record ScoreWorld : Type 0 where
  pub to_lower_case : String → String
  pub parse_date : String → Option ℕ
  -- the hash of `JSON.stringify` of the report, without its hash and its signature
  pub create_server_score_payload_hash : ServerScoreReportPayload → String
  -- the signature, the hash and the public key; bytes that cannot be read are an exception
  pub verify : String → String → String → Result Bool

abbrev text_or_empty : Value → String
text_or_empty (text s) = s
text_or_empty v = ""

abbrev is_text : Value → Bool
is_text (text s) = true
is_text v = false

abbrev is_number : Value → Bool
is_number (num n) = true
is_number (fraction a b) = true
is_number v = false

-- `Math.round`
abbrev number_of : Value → ℕ
number_of (num n) = n
number_of (fraction a b) = (2 * a + b) / (2 * b)
number_of v = 0

module _ (world : ScoreWorld) where
  abbrev pub normalize_hex : String → String
  normalize_hex value = with_hex_prefix (world.to_lower_case (trim value))

  abbrev pub is_hex : String → Bool
  is_hex value =
      has_hex_prefix (trim value)
      && all_hex (drop_two (trim value))
      && ltb 0 (count_chars (drop_two (trim value)))

  abbrev pub is_date : String → Bool
  is_date value = is_some (world.parse_date value)

  -- A number is finite and not below 0 here.
  unfoldable pub validate_server_score_report_payload : Value → ServerScoreReportValidationResult
  validate_server_score_report_payload value =
      let at = λ (name : String). text_or_empty (get_field name value) in
      let given = λ (name : String). is_text (get_field name value) in
      let score = number_of (get_field "score" value) in
      if not (is_object value)
      then invalid "Score gossip payload must be an object."
      else if not (given "type" && at "type" == "server.score.report")
      then invalid "Unsupported score gossip payload type."
      else if not (given "reporter_peer_id" && not (is_empty (trim (at "reporter_peer_id"))))
      then invalid "reporter_peer_id is required."
      else if not (given "target_peer_id" && not (is_empty (trim (at "target_peer_id"))))
      then invalid "target_peer_id is required."
      else if not (given "reporter_server_public_key" && is_hex (at "reporter_server_public_key"))
      then invalid "reporter_server_public_key must be a valid hex string."
      else if not (is_number (get_field "score" value))
      then invalid "score must be a valid number."
      else if ltb 100 score
      then invalid "score must be within the 0..100 range."
      else if not (given "observed_at" && is_date (at "observed_at"))
      then invalid "observed_at must be an ISO timestamp."
      else if not (given "expires_at" && is_date (at "expires_at"))
      then invalid "expires_at must be an ISO timestamp."
      else if not (given "payload_hash" && is_hex (at "payload_hash"))
      then invalid "payload_hash must be a valid hex string."
      else if not (given "signature" && is_hex (at "signature"))
      then invalid "signature must be a valid hex string."
      else valid (record {
        expires_at = at "expires_at";
        observed_at = at "observed_at";
        payload_hash = at "payload_hash";
        reporter_peer_id = trim (at "reporter_peer_id");
        reporter_server_public_key = normalize_hex (at "reporter_server_public_key");
        score = score;
        signature = normalize_hex (at "signature");
        target_peer_id = trim (at "target_peer_id");
      })

  unfoldable pub verify_server_score_signature : ServerScoreReportPayload → Result Bool
  verify_server_score_signature payload =
      let expected_hash = world.create_server_score_payload_hash payload in
      if not (normalize_hex payload.payload_hash == expected_hash)
      then ok false
      else world.verify payload.signature expected_hash payload.reporter_server_public_key

-- `orderBy: [{ observed_at: 'desc' }, { createdAt: 'desc' }]`
abbrev pub newer_first : ServerScoreReport → ServerScoreReport → Bool
newer_first a b =
    ltb b.observed_at a.observed_at
    || (nat_beq a.observed_at b.observed_at && leb b.created_at a.created_at)

abbrev pub first_of : {R : Type 0} → List R → Option R
first_of [] = none
first_of (r ∷ rs) = some r

-- The reports in the database, which are unique by reporter, target and date: `rows` are all, in an
-- order that nothing depends on. `find_many` is in the order of `newer_first`.
pub record ReportTable (D : Type 0) : Type 0 where
  pub rows : D → List ServerScoreReport
  pub find_many : (ServerScoreReport → Bool) → D → List ServerScoreReport
  pub upsert : (ServerScoreReport → Bool) → (Option ServerScoreReport → ServerScoreReport) → D → D
  pub delete_many : (ServerScoreReport → Bool) → D → D
  pub find_many-rows :
      (test : ServerScoreReport → Bool) (d : D) → Perm (find_many test d) (keep test (rows d))
  pub find_many-IsSortedBy :
      (test : ServerScoreReport → Bool) (d : D) → IsSortedBy newer_first (find_many test d)
  pub rows-delete_many :
      (test : ServerScoreReport → Bool) (d : D)
      → rows (delete_many test d) ≡ keep (λ r. not (test r)) (rows d)
  -- the row under a key is updated, or made
  pub rows-upsert :
      (key : ServerScoreReport → Bool) (f : Option ServerScoreReport → ServerScoreReport) (d : D)
      → key (f (first_of (keep key (rows d)))) ≡ true
      → keep key (rows (upsert key f d)) ≡ f (first_of (keep key (rows d))) ∷ []
  pub others-upsert :
      (key : ServerScoreReport → Bool) (f : Option ServerScoreReport → ServerScoreReport) (d : D)
      → key (f (first_of (keep key (rows d)))) ≡ true
      → keep (λ r. not (key r)) (rows (upsert key f d)) ≡ keep (λ r. not (key r)) (rows d)
