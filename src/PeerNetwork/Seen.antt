-- ===== src/PeerNetwork/Seen.antt =====
-- src/modules/peer_network/peer_network.service.ts: an event of another server is processed once
-- while it is remembered.
use open_chat_be.Prelude.{
  Bool, Map, String, [], arith, false, has, if◌then◌else◌, insert, keep, leb, lookup,
  lookup-insert_self, nat_eq, not, some, string_eq, true, ℕ, ◌*◌, ◌+◌, ◌<◌, ◌∷◌, ◌≡◌,
}
use open_chat_be.Realtime.Keys.{◌⧺◌}

abbrev pub dedupe_key : String → String → String
dedupe_key event_id type = type ⧺ ":" ⧺ event_id

unfoldable pub cleanup_inter_server_dm_event_dedupe : ℕ → Map String ℕ → Map String ℕ
cleanup_inter_server_dm_event_dedupe now m = keep (λ entry. not (leb entry.1 now)) m

unfoldable pub should_process_inter_server_dm_event :
    ℕ → ℕ → String → String → Map String ℕ → Bool × Map String ℕ
should_process_inter_server_dm_event ttl_seconds now event_id type m =
    let key = dedupe_key event_id type in
    let kept = cleanup_inter_server_dm_event_dedupe now m in
    if has key kept then (false, kept) else (true, insert key (now + ttl_seconds * 1000) kept)

-- What has not run out is kept.
pub has-unexpired :
    (now : ℕ) (key : String) (expires : ℕ) (m : Map String ℕ)
    → lookup key m ≡ some expires
    → now < expires
    → has key (keep (λ (entry : String × ℕ). not (leb entry.1 now)) m) ≡ true
unfolding lookup has
has-unexpired now key expires [] h k = cc
has-unexpired now key expires ((known, at) ∷ rest) h k =
    ground (arith, has-unexpired now key expires rest)

has-cleanup :
    (now : ℕ) (key : String) (expires : ℕ) (m : Map String ℕ)
    → lookup key m ≡ some expires
    → now < expires
    → has key (cleanup_inter_server_dm_event_dedupe now m) ≡ true
unfolding cleanup_inter_server_dm_event_dedupe
has-cleanup now key expires m h k = has-unexpired now key expires m h k

-- An event that was processed is not processed again before its time is over.
pub should_process_inter_server_dm_event-once :
    (ttl_seconds now later : ℕ) (event_id type : String) (m : Map String ℕ)
    → (should_process_inter_server_dm_event ttl_seconds now event_id type m).0 ≡ true
    → later < now + ttl_seconds * 1000
    → (should_process_inter_server_dm_event ttl_seconds later event_id type
        (should_process_inter_server_dm_event ttl_seconds now event_id type m).1).0
      ≡ false
should_process_inter_server_dm_event-once ttl now later event_id type m first soon =
    let key = dedupe_key event_id type in
    let kept = cleanup_inter_server_dm_event_dedupe now m in
    let m' = (should_process_inter_server_dm_event ttl now event_id type m).1 in
    let there : lookup key m' ≡ some (now + ttl * 1000) =
      unfold should_process_inter_server_dm_event in
      ground (arith, first, lookup-insert_self key (now + ttl * 1000) kept) in
    let seen = has-cleanup later key (now + ttl * 1000) m' there soon in
    unfold should_process_inter_server_dm_event in ground (arith, seen)
