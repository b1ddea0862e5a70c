-- ===== src/Realtime/Connection/Timers.antt =====
-- The authentication timer of a socket runs only while the socket is not authenticated.
use open_chat_be.Prelude.{
  Map, Option, Option-cases, String, arith, false, inl, inr, lookup, lookup-erase, lookup-insert,
  nat_eq, none, some, string_eq, ℕ, ◌<◌, ◌≡◌, ◌≢◌,
}
use open_chat_be.Realtime.Connection.{
  ConnectionState, Connections, register_client, mark_authenticated, remove_client, clear_timeout,
  authenticated_state, fresh_state, get_authenticated_state,
}

abbrev HasTimer : ℕ → Option ConnectionState → Type 0
HasTimer t none = ⊥
HasTimer t (some s) = (s.auth_timeout ≡ some t) × (s.authenticated ≡ false)

-- Every pending timer is that of a socket which waits for its authentication.
abbrev pub AreTimersSound : Connections → Type 0
AreTimersSound c =
    (t k : ℕ)
    → lookup t c.timers ≡ some k
    → HasTimer t (lookup k c.client_states) × (t < c.next_timer)

lookup-clear_timeout :
    (o : Option ℕ) (t : ℕ) (m : Map ℕ ℕ) (k : ℕ)
    → lookup t (clear_timeout o m) ≡ some k
    → (lookup t m ≡ some k) × (o ≢ some t)
unfolding clear_timeout
lookup-clear_timeout none t m k h = (h, cc)
lookup-clear_timeout (some o) t m k h = ground (arith, lookup-erase o t m, nat_eq.beq_iff o t)

pub register_client-AreTimersSound :
    (client : ℕ) (socket_id : String) (c : Connections)
    → lookup client c.client_states ≡ none
    → AreTimersSound c
    → AreTimersSound (register_client client socket_id c)
unfolding register_client
register_client-AreTimersSound client socket_id c new v t k h = ground (
  arith,
  v t k,
  nat_eq.beq_iff client k,
  nat_eq.beq_iff c.next_timer t,
  lookup-insert c.next_timer t client c.timers,
  lookup-insert client k (fresh_state c.next_timer socket_id) c.client_states,
)

pub mark_authenticated-AreTimersSound :
    (client : ℕ) (session_id public_key : String) (c : Connections)
    → AreTimersSound c
    → AreTimersSound (mark_authenticated client session_id public_key c)
mark_authenticated-AreTimersSound client session_id public_key c v =
    elim (Option-cases (lookup client c.client_states)) [
      | inl e ↦ unfold mark_authenticated in rw (e, mark_authenticated) v
      | inr (st, e) ↦ λ t k h.
          unfold mark_authenticated in
          ground (
            arith,
            e,
            v t k,
            nat_eq.beq_iff client k,
            lookup-clear_timeout st.auth_timeout t c.timers k,
            lookup-insert client k (authenticated_state session_id public_key st) c.client_states,
          )
    ]

pub remove_client-AreTimersSound :
    (client : ℕ) (c : Connections) → AreTimersSound c → AreTimersSound (remove_client client c).0
remove_client-AreTimersSound client c v = elim (Option-cases (lookup client c.client_states)) [
  | inl e ↦ unfold remove_client in rw (e, remove_client) v
  | inr (st, e) ↦ λ t k h.
      unfold remove_client in
      ground (
        arith,
        e,
        v t k,
        nat_eq.beq_iff client k,
        lookup-clear_timeout st.auth_timeout t c.timers k,
        lookup-erase client k c.client_states,
      )
]

-- No timer runs for a socket that is authenticated.
pub no_timer_of_authenticated :
    (c : Connections) (k : ℕ) (s : ConnectionState)
    → AreTimersSound c
    → get_authenticated_state k c ≡ some s
    → (t : ℕ) → lookup t c.timers ≢ some k
unfolding get_authenticated_state
no_timer_of_authenticated c k s v h t e = ground (arith, v t k e)
