-- ===== src/Realtime/Connection/Consistency.antt =====
-- The two maps of the connection service agree: a socket is in the set of a session exactly when
-- its own state names that session.
use open_chat_be.Prelude.{
  Bool, Option, Option-cases, String, [], add_to, add_to-HasNoEmpty, arith, contains,
  contains-add_to, contains-drop_from, contains-remove, drop_from-HasNoEmpty, false, if◌then◌else◌,
  inl, inr, lookup, lookup-erase, lookup-insert, nat_eq, none, or_else, refl, some, string_eq, true,
  ℕ, ◌==◌, ◌≡◌, ◌≢◌,
}
use open_chat_be.Realtime.Connection.{
  remove_client, drop_session_client, register_pong, authenticated_state, get_authenticated_state,
  fresh_state, mark_authenticated, Connections, ConnectionState, members, register_client,
  is_authenticated, empty,
}

abbrev session_is : Option String → String → Bool
session_is none session_id = false
session_is (some s) session_id = s == session_id

abbrev state_names : Option ConnectionState → String → Bool
state_names none session_id = false
state_names (some s) session_id = session_is s.session_id session_id

abbrev pub is_bound : Connections → String → ℕ → Bool
is_bound c session_id client = state_names (lookup client c.client_states) session_id

abbrev IsWhole : Option ConnectionState → Type 0
IsWhole none = Unit
IsWhole (some s) = s.session_id ≢ none → is_authenticated s ≡ true

pub record IsConsistent (c : Connections) : Type 0 where
  pub linked :
      (session_id : String) (client : ℕ)
      → contains (members c session_id) client ≡ is_bound c session_id client
  pub nonempty : (session_id : String) → lookup session_id c.session_clients ≢ some []
  pub whole : (client : ℕ) → IsWhole (lookup client c.client_states)

pub empty-IsConsistent : IsConsistent empty
unfolding lookup contains
empty-IsConsistent = record { linked = λ s k. refl; nonempty = λ s. cc; whole = λ k. tt }

-- A socket that connects is in no session.
pub register_client-IsConsistent :
    (client : ℕ) (socket_id : String) (c : Connections)
    → lookup client c.client_states ≡ none
    → IsConsistent c
    → IsConsistent (register_client client socket_id c)
unfolding register_client
register_client-IsConsistent client socket_id c new v =
    let at =
      λ (k : ℕ). lookup-insert client k (fresh_state c.next_timer socket_id) c.client_states in
    record {
      linked = λ s k. ground (arith, v.linked s k, nat_eq.beq_iff client k, at k);
      nonempty = v.nonempty;
      whole = λ k. ground (arith, v.whole k, at k);
    }

module _ (client : ℕ) (session_id public_key : String) (c : Connections) where
  state-mark :
      (st : ConnectionState) (k : ℕ)
      → lookup client c.client_states ≡ some st
      → lookup k (mark_authenticated client session_id public_key c).client_states ≡ (
          if client == k
          then some (authenticated_state session_id public_key st)
          else lookup k c.client_states)
  unfolding mark_authenticated
  state-mark st k e =
      ground (
        arith,
        lookup-insert client k (authenticated_state session_id public_key st) c.client_states,
      )

  sessions-mark :
      (st : ConnectionState)
      → lookup client c.client_states ≡ some st
      → (mark_authenticated client session_id public_key c).session_clients
        ≡ add_to session_id client c.session_clients
  unfolding mark_authenticated
  sessions-mark st e = ground (arith, e)

  -- A socket that is not authenticated is in no session.
  unbound :
      IsConsistent c
      → get_authenticated_state client c ≡ none
      → (s : String) → is_bound c s client ≡ false
  unfolding get_authenticated_state
  unbound v n s = ground (arith, v.whole client)

  -- A socket that authenticates for the first time is added to its session and to no other.
  pub mark_authenticated-IsConsistent :
      session_id ≢ ""
      → public_key ≢ ""
      → get_authenticated_state client c ≡ none
      → IsConsistent c
      → IsConsistent (mark_authenticated client session_id public_key c)
  mark_authenticated-IsConsistent hs hp n v = elim (Option-cases (lookup client c.client_states)) [
    | inl e ↦ unfold mark_authenticated in rw (e, mark_authenticated) v
    | inr (st, e) ↦ record {
      linked = λ s k. rw (sessions-mark st e) (
          ground (
            arith,
            e,
            state-mark st k e,
            v.linked s k,
            nat_eq.beq_iff client k,
            unbound v n s,
            contains-add_to session_id client c.session_clients s k,
          ));
      nonempty = λ s.
          rw (sessions-mark st e)
            (add_to-HasNoEmpty session_id client c.session_clients v.nonempty s);
      whole = λ k. ground (
        arith,
        v.whole k,
        state-mark st k e,
        string_eq.beq_iff session_id "",
        string_eq.beq_iff public_key "",
      );
    }
  ]

module _ (client : ℕ) (c : Connections) (st : ConnectionState)
    (e : lookup client c.client_states ≡ some st) where
  clients-remove :
      (k : ℕ)
      → lookup k (remove_client client c).0.client_states
        ≡ (if client == k then none else lookup k c.client_states)
  unfolding remove_client
  clients-remove k = ground (arith, e, lookup-erase client k c.client_states)

  sessions-remove :
      (remove_client client c).0.session_clients
      ≡ drop_session_client client st.session_id c.session_clients
  unfolding remove_client
  sessions-remove = ground (arith, e)

  linked-remove :
      IsConsistent c
      → (o : Option String) → st.session_id ≡ o
      → (s : String) (k : ℕ)
      → contains (or_else (lookup s (drop_session_client client o c.session_clients)) []) k
        ≡ (if client == k then false else is_bound c s k)
  linked-remove v none h s k = ground (arith, e, h, v.linked s k, nat_eq.beq_iff client k)
  linked-remove v (some sid) h s k = ground (
    arith,
    e,
    h,
    v.linked s k,
    v.whole client,
    nat_eq.beq_iff client k,
    string_eq.beq_iff sid s,
    contains-drop_from sid client c.session_clients s k,
    contains-remove (members c s) client k,
  )

  nonempty-remove :
      IsConsistent c
      → (o : Option String) → (s : String)
      → lookup s (drop_session_client client o c.session_clients) ≢ some []
  nonempty-remove v none s = v.nonempty s
  nonempty-remove v (some sid) s =
      ground (arith, v.nonempty s, drop_from-HasNoEmpty sid client c.session_clients v.nonempty s)

-- A socket that goes is taken out of its session, and the session goes with its last socket.
pub remove_client-IsConsistent :
    (client : ℕ) (c : Connections) → IsConsistent c → IsConsistent (remove_client client c).0
remove_client-IsConsistent client c v = elim (Option-cases (lookup client c.client_states)) [
  | inl e ↦ unfold remove_client in rw (e, remove_client) v
  | inr (st, e) ↦ record {
    linked = λ s k.
        rw (sessions-remove client c st e, clients-remove client c st e k)
          (ground (arith, linked-remove client c st e v st.session_id refl s k));
    nonempty =
        λ s. rw (sessions-remove client c st e) (nonempty-remove client c st e v st.session_id s);
    whole = λ k. rw (clients-remove client c st e k) (ground (arith, v.whole k));
  }
]

pub register_pong-IsConsistent :
    (client : ℕ) (c : Connections) → IsConsistent c → IsConsistent (register_pong client c)
unfolding register_pong
register_pong-IsConsistent client c v = elim (Option-cases (lookup client c.client_states)) [
  | inl e ↦ rw (e, register_pong) v
  | inr (st, e) ↦
      let at = λ (k : ℕ).
        lookup-insert client k (record st { awaiting_pong = false; missed_pongs = 0 })
          c.client_states in
      record {
        linked = λ s k. ground (arith, e, v.linked s k, nat_eq.beq_iff client k, at k);
        nonempty = λ s. ground (arith, e, v.nonempty s);
        whole = λ k. ground (arith, e, v.whole k, at k, nat_eq.beq_iff client k);
      }
]
