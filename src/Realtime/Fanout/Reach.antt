-- ===== src/Realtime/Fanout/Reach.antt =====
-- Whom a message to a room reaches.
use open_chat_be.Realtime.Keys.{create_session_pending_key}
use open_chat_be.Realtime.Fanout.{
  ReliableEnvelopeInput, emit_to_room, deliver_to_local_room, handle_room_fanout, deliver_all,
}
use open_chat_be.Prelude.{
  All, All-imp, Bool, Bool-cases, List, Option, Option-cases, String, [], ap, arith, beq_refl,
  contains, eq_of_beq, false, if◌then◌else◌, inl, inr, nat_eq, refl, some, string_eq, subst, sym,
  true, ℕ, ◌++◌, ◌==◌, ◌∙◌, ◌∷◌, ◌≡◌, ◌≢◌,
}
use mathlib.Core.List.{Memᴰ}
use open_chat_be.Realtime.Types.{ReliableEnvelope, RoomFanoutMessage, Output, envelope, send}
use open_chat_be.Realtime.Redis.{HashCommands}
use open_chat_be.Realtime.Connection.{Connections, send_json, get_client_by_session_id}
use open_chat_be.Realtime.Delivery.{
  create_envelope, store_pending_envelope, send_to, Delivery, DeliveryConfig, deliver_to_session,
}
use open_chat_be.Realtime.Delivery.Retry.{pending}
use open_chat_be.Realtime.Rooms.{LocalRooms, get_local_session_ids}

module _ {S P : Type 0} (commands : HashCommands S (ReliableEnvelope P)) (config : DeliveryConfig)
    (node_id : String) (c : Connections) (is_open : ℕ → Bool) where
  -- One message for each session that has an open socket here, in the order of the sessions.
  abbrev one_each : ReliableEnvelope P → List String → List (Output P)
  one_each e [] = []
  one_each e (id ∷ ids) =
      send_to commands config is_open (get_client_by_session_id id c) (envelope e) ++ one_each e ids

  deliver_all-out :
      (ids : List String) (e : ReliableEnvelope P) (d : Delivery S)
      → (deliver_all commands config node_id c is_open ids e d).1 ≡ one_each e ids
  unfolding deliver_all deliver_to_session
  deliver_all-out [] e d = refl
  deliver_all-out (id ∷ ids) e d = elim (Option-cases (get_client_by_session_id id c)) [
    | inl n ↦ ground (arith, n, deliver_all-out ids e d)
    | inr (k, n) ↦
        ground
          (arith, n, deliver_all-out ids e (deliver_to_session commands config c is_open id e d).0)
  ]

  -- A send of the envelope to the first of the sockets of one of the sessions, which is open.
  abbrev pub IsDelivery : ReliableEnvelope P → List String → Output P → Type 0
  IsDelivery e ids o =
      (id : String) × (k : ℕ) × (contains ids id ≡ true)
      × (get_client_by_session_id id c ≡ some k)
      × (is_open k ≡ true)
      × (o ≡ send k (envelope e))

  widened :
      (e : ReliableEnvelope P) (x : String) (ids : List String) (o : Output P)
      → IsDelivery e ids o
      → IsDelivery e (x ∷ ids) o
  unfolding contains
  widened e x ids o (id, k, inside, first, opened, same) =
      (id, k, ground (arith, inside), first, opened, same)

  one_each-IsDelivery :
      (e : ReliableEnvelope P) (ids : List String) → All (IsDelivery e ids) (one_each e ids)
  unfolding send_json contains
  one_each-IsDelivery e [] = tt
  one_each-IsDelivery e (x ∷ ids) =
      let rest =
        All-imp (IsDelivery e ids) (IsDelivery e (x ∷ ids)) (one_each e ids)
          (λ o h. widened e x ids o h) (one_each-IsDelivery e ids) in
      elim (Option-cases (get_client_by_session_id x c)) [
        | inl n ↦ rw n rest
        | inr (k, n) ↦ elim (Bool-cases (is_open k)) [
          | inr shut ↦ rw (n, shut) rest
          | inl opened ↦ rw (n, opened) ((x, k, ground (arith, beq_refl x), n, opened, refl), rest)
        ]
      ]

  after_others : (xs ys : List (Output P)) (o : Output P) → Memᴰ o ys → Memᴰ o (xs ++ ys)
  after_others [] ys o h = h
  after_others (x ∷ xs) ys o h = Memᴰ.tail (after_others xs ys o h)

  one_each-all :
      (e : ReliableEnvelope P) (ids : List String) (id : String) (k : ℕ)
      → contains ids id ≡ true
      → get_client_by_session_id id c ≡ some k
      → is_open k ≡ true
      → Memᴰ (send k (envelope e)) (one_each e ids)
  unfolding send_json contains
  one_each-all e [] id k inside first opened = absurd cc
  one_each-all e (x ∷ ids) id k inside first opened = elim (Bool-cases (x == id)) [
    | inl same ↦ rw (eq_of_beq x id same, first, opened) (Memᴰ.head refl)
    | inr other ↦
        after_others (send_to commands config is_open (get_client_by_session_id x c) (envelope e)) _
          _ (one_each-all e ids id k (ground (arith, inside, other)) first opened)
  ]

  -- What a message of another node makes this node send: the envelope, to the first of the sockets of
  -- each session of the room that is here, if that socket is open, and nothing else.
  pub handle_room_fanout-reach :
      (m : RoomFanoutMessage P) (r : LocalRooms) (d : Delivery S)
      → m.origin_node_id ≢ node_id
      → let out = (handle_room_fanout commands config node_id c is_open m r d).1 in
        let ids = get_local_session_ids m.room_name r in
        All (IsDelivery m.envelope ids) out
        × ((id : String) (k : ℕ)
            → contains ids id ≡ true
            → get_client_by_session_id id c ≡ some k
            → is_open k ≡ true
            → Memᴰ (send k (envelope m.envelope)) out)
  handle_room_fanout-reach m r d h =
      let ids = get_local_session_ids m.room_name r in
      let out : (handle_room_fanout commands config node_id c is_open m r d).1
          ≡ one_each m.envelope ids =
        unfold handle_room_fanout deliver_to_local_room in
        ground
          (arith, string_eq.beq_iff m.origin_node_id node_id, deliver_all-out ids m.envelope d) in
      (
        subst (All (IsDelivery m.envelope ids)) (sym out) (one_each-IsDelivery m.envelope ids),
        λ id k inside first opened.
            subst (λ os. Memᴰ (send k (envelope m.envelope)) os) (sym out)
              (one_each-all m.envelope ids id k inside first opened),
      )

  module _ (e : ReliableEnvelope P) (acked : e.requires_ack ≡ true) (x : String) where
    abbrev waiting : Delivery S → Option (ReliableEnvelope P)
    waiting d = pending commands config c is_open x e.event_id d

    waiting-store :
        (id : String) (d : Delivery S)
        → waiting (store_pending_envelope commands config id e d) ≡ (
            if create_session_pending_key id == create_session_pending_key x
            then some e
            else waiting d)
    waiting-store id d =
        let key = create_session_pending_key id in
        let key' = create_session_pending_key x in
        commands.hget-pexpire key config.session_ttl_ms (commands.hset key e.event_id e d.redis)
          key' e.event_id
        ∙ ground (
          arith,
          commands.hget-hset key e.event_id e d.redis key' e.event_id,
          beq_refl e.event_id,
        )

    waiting-deliver :
        (id : String) (k : ℕ) (d : Delivery S)
        → get_client_by_session_id id c ≡ some k
        → waiting (deliver_to_session commands config c is_open id e d).0 ≡ (
            if create_session_pending_key id == create_session_pending_key x
            then some e
            else waiting d)
    unfolding deliver_to_session
    waiting-deliver id k d n = ground (arith, n, acked, waiting-store id d)

    kept :
        (id : String) (d : Delivery S)
        → waiting d ≡ some e
        → waiting (deliver_to_session commands config c is_open id e d).0 ≡ some e
    kept id d h = elim (Option-cases (get_client_by_session_id id c)) [
      | inl n ↦ unfold deliver_to_session in ground (arith, n, h)
      | inr (k, n) ↦ waiting-deliver id k d n ∙ ground (arith, h)
    ]

    kept_all :
        (ids : List String) (d : Delivery S)
        → waiting d ≡ some e
        → waiting (deliver_all commands config node_id c is_open ids e d).0 ≡ some e
    unfolding deliver_all
    kept_all [] d h = h
    kept_all (id ∷ ids) d h = kept_all ids _ (kept id d h)

    waiting-deliver_all :
        (ids : List String) (k : ℕ) (d : Delivery S)
        → contains ids x ≡ true
        → get_client_by_session_id x c ≡ some k
        → waiting (deliver_all commands config node_id c is_open ids e d).0 ≡ some e
    unfolding deliver_all contains
    waiting-deliver_all [] k d h n = cc
    waiting-deliver_all (id ∷ ids) k d h n = elim (Bool-cases (id == x)) [
      | inl same ↦ kept_all ids _ (
          waiting-deliver id k d (ap (λ i. get_client_by_session_id i c) (eq_of_beq id x same) ∙ n)
          ∙ ground (arith, eq_of_beq id x same, beq_refl (create_session_pending_key x)))
      | inr other ↦ waiting-deliver_all ids k _ (ground (arith, other)) n
    ]

  -- After a message that wants an acknowledgement was sent to a room, it is pending for every
  -- session of the room that has a socket on this node.
  pub emit_to_room-pending :
      (now : ℕ) (new_id room_name : String) (input : ReliableEnvelopeInput P) (r : LocalRooms)
      (d : Delivery S) (session_id : String) (k : ℕ)
      → input.requires_ack ≢ some false
      → contains (get_local_session_ids room_name r) session_id ≡ true
      → get_client_by_session_id session_id c ≡ some k
      → let (d', out, message) =
          emit_to_room commands config node_id c is_open now new_id room_name input r d in
        pending commands config c is_open session_id message.envelope.event_id d'
        ≡ some message.envelope
  unfolding emit_to_room deliver_to_local_room
  emit_to_room-pending now new_id room_name input r d session_id k wanted inside n =
      waiting-deliver_all (create_envelope config now new_id input)
        (unfold create_envelope in ground arith) session_id (get_local_session_ids room_name r) k d
        inside n
