-- ===== src/Client/Requests.antt =====
-- ynetclient.cpp with ynetserver.cpp: a request of the client and the handler meant for it.
use ynetserver_enet.Base.{
  ℕ, ◌≤◌, ◌≡◌, refl, sym, ap, ◌∙◌, subst, [], ◌∷◌, none, some, Bytes, Option-cases, inl, inr, arith,
}
use ynetserver_enet.Base.Int.{ℤ, pos}
use ynetserver_enet.Stream.{Stream, Laws, total}
use ynetserver_enet.Message.{
  AnyMessage, MessageType, type_of, packet_to_client, rpc, code_of, rpc_to_client,
}
use ynetserver_enet.Message.Wire.{encode}
use ynetserver_enet.Message.Wire.Items.{items, IsValid}
use ynetserver_enet.Message.Parse.{deserialize, shape_for, Shape}
use ynetserver_enet.Message.Parse.Reads.{type_byte, shape}
use ynetserver_enet.Message.RoundTrip.{encode-deserialize, encode-head}
use ynetserver_enet.Text.{stoi, wrap}
use ynetserver_enet.Room.{Peer, Client}
use ynetserver_enet.Server.{World}
use ynetserver_enet.Server.Create.{handle_room_creation}
use ynetserver_enet.Server.Join.{
  handle_room_join, handle_join_or_create_room, handle_join_or_create_room_random,
}
use ynetserver_enet.Server.Leave.{handle_room_leave}
use ynetserver_enet.Server.Settings.{
  handle_set_room_password, handle_set_max_players, handle_set_room_private,
  handle_set_host_migration, handle_set_room_name, handle_set_extra_info,
}
use ynetserver_enet.Server.Relay.{
  broadcast_message, handle_rpc_to_server, handle_rpc_to_clients, handle_rpc_to_client,
  handle_packet_to_server, handle_packet_to_clients, handle_packet_to_client,
}
use ynetserver_enet.Server.Info.{Json, handle_get_room_list, handle_get_room_info}
use ynetserver_enet.Server.Dispatch.{
  Handler, kick_or_echo, dispatch, dispatch_type, handle_received_data, text_in, setting_in,
  creation_in, join_in, rpc_in, packet_in,
}
use ynetserver_enet.Client.{
  Request, create_room, join_room, leave_room, send_room_message, create_room_with, join_room_with,
  join_or_create, join_or_create_random, room_password, max_players, room_private, host_migration,
  room_name, extra_info, room_info, room_list, kick_out, call_server, call_clients, call_client,
  packet_server, packet_clients, packet_client, message_of, show_bool, show_int, max_message_size,
  packet_of,
}

same_some : {A : Type 0} (Q : A → Type 0) (a b : A) → some a ≡ some b → Q a → Q b
same_some Q a b e q = let same : a ≡ b = ground arith in subst Q same q

module _ ⦃io : Stream⦄ ⦃json : Json⦄ where
  -- The handler that a request is meant for; `raw` is its packet.
  unfoldable pub handler_of : Request → Client → Peer → Bytes → Handler
  handler_of (create_room code) c p raw = handle_room_creation c p code []
  handler_of (join_room code password) c p raw = handle_room_join c p code password
  handler_of leave_room c p raw = handle_room_leave c p
  handler_of (send_room_message s) c p raw = broadcast_message c p s
  handler_of (create_room_with code password) c p raw = handle_room_creation c p code password
  handler_of (join_room_with code password) c p raw = handle_room_join c p code password
  handler_of (join_or_create code password) c p raw = handle_join_or_create_room c p code password
  handler_of join_or_create_random c p raw = handle_join_or_create_room_random c p
  handler_of (room_password s) c p raw = λ w. some (handle_set_room_password c p s w)
  handler_of (max_players z) c p raw = λ w. some (handle_set_max_players c p (show_int z) w)
  handler_of (room_private b) c p raw = λ w. some (handle_set_room_private c p (show_bool b) w)
  handler_of (host_migration b) c p raw = λ w. some (handle_set_host_migration c p (show_bool b) w)
  handler_of (room_name s) c p raw = λ w. some (handle_set_room_name c p s w)
  handler_of (extra_info s) c p raw = λ w. some (handle_set_extra_info c p s w)
  handler_of room_info c p raw = handle_get_room_info c p
  handler_of room_list c p raw = handle_get_room_list c p []
  handler_of (kick_out id) c p raw = kick_or_echo c p raw id
  handler_of (call_server k b) c p raw = handle_rpc_to_server c p k b
  handler_of (call_clients k b) c p raw = handle_rpc_to_clients c p k b
  handler_of (call_client id k b) c p raw = elim (stoi id) [
    | none ↦ λ w. some w
    | some z ↦ handle_rpc_to_client c p (wrap 16 z) b
  ]
  handler_of (packet_server b) c p raw = handle_packet_to_server c p b 1 0
  handler_of (packet_clients b) c p raw = handle_packet_to_clients c p b 1 0
  handler_of (packet_client id b) c p raw = elim (stoi id) [
    | none ↦ λ w. some w
    | some z ↦ handle_packet_to_client c p (wrap 16 (pos (wrap 32 z))) b 1 0
  ]

  -- What the server makes of a request's message.
  pub Reaches : ℕ → Request → AnyMessage → Type 0
  Reaches stale r m =
      (t : MessageType) × (sh : Shape) × (type_of (type_byte m) ≡ some t)
      × (shape m ≡ some sh)
      × (shape_for (type_byte m) ≡ some sh)
      × ((c : Client) (p : Peer) (raw : Bytes) → dispatch c p raw t m ≡ handler_of r c p raw)

  call_client-Reaches :
      (stale : ℕ) (id : Bytes) (k : ℕ) (b : Bytes) (z : ℤ)
      → stoi id ≡ some z
      → Reaches stale (call_client id k b) (rpc (code_of rpc_to_client) (wrap 16 z) b)
  unfolding Reaches dispatch handler_of rpc_in type_of shape_for
  call_client-Reaches stale id k b z f =
      (_, _, refl, refl, refl, λ c p raw. rw (f, handler_of) refl)

  packet_client-Reaches :
      (stale : ℕ) (id b : Bytes) (z : ℤ)
      → stoi id ≡ some z
      → Reaches stale (packet_client id b) (packet_of packet_to_client (wrap 32 z) b)
  unfolding Reaches dispatch handler_of packet_in type_of shape_for
  packet_client-Reaches stale id b z f =
      (_, _, refl, refl, refl, λ c p raw. rw (f, handler_of) refl)

  message_of-Reaches :
      (stale : ℕ) (r : Request) (m : AnyMessage) → message_of stale r ≡ some m → Reaches stale r m
  unfolding message_of Reaches handler_of dispatch text_in setting_in creation_in join_in rpc_in
      packet_in type_of shape_for
  message_of-Reaches stale (create_room code) m e =
      same_some (Reaches stale (create_room code)) _ m e (_, _, refl, refl, refl, λ c p raw. refl)
  message_of-Reaches stale (join_room code password) m e =
      same_some (Reaches stale (join_room code password)) _ m e
        (_, _, refl, refl, refl, λ c p raw. refl)
  message_of-Reaches stale leave_room m e =
      same_some (Reaches stale leave_room) _ m e (_, _, refl, refl, refl, λ c p raw. refl)
  message_of-Reaches stale (send_room_message s) m e =
      same_some (Reaches stale (send_room_message s)) _ m e
        (_, _, refl, refl, refl, λ c p raw. refl)
  message_of-Reaches stale (create_room_with code password) m e =
      same_some (Reaches stale (create_room_with code password)) _ m e
        (_, _, refl, refl, refl, λ c p raw. refl)
  message_of-Reaches stale (join_room_with code password) m e =
      same_some (Reaches stale (join_room_with code password)) _ m e
        (_, _, refl, refl, refl, λ c p raw. refl)
  message_of-Reaches stale (join_or_create code password) m e =
      same_some (Reaches stale (join_or_create code password)) _ m e
        (_, _, refl, refl, refl, λ c p raw. refl)
  message_of-Reaches stale join_or_create_random m e =
      same_some (Reaches stale join_or_create_random) _ m e
        (_, _, refl, refl, refl, λ c p raw. refl)
  message_of-Reaches stale (room_password s) m e =
      same_some (Reaches stale (room_password s)) _ m e (_, _, refl, refl, refl, λ c p raw. refl)
  message_of-Reaches stale (max_players z) m e =
      same_some (Reaches stale (max_players z)) _ m e (_, _, refl, refl, refl, λ c p raw. refl)
  message_of-Reaches stale (room_private b) m e =
      same_some (Reaches stale (room_private b)) _ m e (_, _, refl, refl, refl, λ c p raw. refl)
  message_of-Reaches stale (host_migration b) m e =
      same_some (Reaches stale (host_migration b)) _ m e (_, _, refl, refl, refl, λ c p raw. refl)
  message_of-Reaches stale (room_name s) m e =
      same_some (Reaches stale (room_name s)) _ m e (_, _, refl, refl, refl, λ c p raw. refl)
  message_of-Reaches stale (extra_info s) m e =
      same_some (Reaches stale (extra_info s)) _ m e (_, _, refl, refl, refl, λ c p raw. refl)
  message_of-Reaches stale room_info m e =
      same_some (Reaches stale room_info) _ m e (_, _, refl, refl, refl, λ c p raw. refl)
  message_of-Reaches stale room_list m e =
      same_some (Reaches stale room_list) _ m e (_, _, refl, refl, refl, λ c p raw. refl)
  message_of-Reaches stale (kick_out id) m e =
      same_some (Reaches stale (kick_out id)) _ m e (_, _, refl, refl, refl, λ c p raw. refl)
  message_of-Reaches stale (call_server k b) m e =
      same_some (Reaches stale (call_server k b)) _ m e (_, _, refl, refl, refl, λ c p raw. refl)
  message_of-Reaches stale (call_clients k b) m e =
      same_some (Reaches stale (call_clients k b)) _ m e (_, _, refl, refl, refl, λ c p raw. refl)
  message_of-Reaches stale (packet_server b) m e =
      same_some (Reaches stale (packet_server b)) _ m e (_, _, refl, refl, refl, λ c p raw. refl)
  message_of-Reaches stale (packet_clients b) m e =
      same_some (Reaches stale (packet_clients b)) _ m e (_, _, refl, refl, refl, λ c p raw. refl)
  message_of-Reaches stale (call_client id k b) m e = elim (Option-cases (stoi id)) [
    | inl n ↦ absurd (ground arith)
    | inr (z, f) ↦
        let sent : message_of stale (call_client id k b)
            ≡ some (rpc (code_of rpc_to_client) (wrap 16 z) b) =
          rw (f, message_of) refl in
        same_some (Reaches stale (call_client id k b)) _ m (sym sent ∙ e)
          (call_client-Reaches stale id k b z f)
  ]
  message_of-Reaches stale (packet_client id b) m e = elim (Option-cases (stoi id)) [
    | inl n ↦ absurd (ground arith)
    | inr (z, f) ↦
        let sent : message_of stale (packet_client id b)
            ≡ some (packet_of packet_to_client (wrap 32 z) b) =
          rw (f, message_of) refl in
        same_some (Reaches stale (packet_client id b)) _ m (sym sent ∙ e)
          (packet_client-Reaches stale id b z f)
  ]

-- A packet that parses goes to the handler of its type.
dispatched :
    ⦃io : Stream⦄ ⦃json : Json⦄ (c : Client) (p : Peer) (k : ℕ) (rest : Bytes) (t : MessageType)
    (m : AnyMessage) (w : World)
    → deserialize (k ∷ rest) ≡ some m
    → type_of k ≡ some t
    → handle_received_data c p (k ∷ rest) w ≡ dispatch c p (k ∷ rest) t m w
unfolding handle_received_data dispatch_type
dispatched c p k rest t m w d e = rw (d, e) refl

-- On streams that keep their laws, the message of a client's request, if it is valid and fits the
-- client's buffer, is encoded to a packet on which handleReceivedData does what the handler meant
-- for that request does, for every client, peer and state of the server.
pub request-handled :
    ⦃io : Stream⦄ ⦃json : Json⦄
    → Laws io
    → (stale : ℕ) (r : Request) (m : AnyMessage) → message_of stale r ≡ some m
    → IsValid m
    → total (items m) ≤ max_message_size
    → (b : Bytes) × (encode max_message_size m ≡ some b)
      × ((c : Client) (p : Peer) (w : World) → handle_received_data c p b w ≡ handler_of r c p b w)
unfolding Reaches
request-handled laws stale r m e valid fits =
    let (t, sh, type, structure, known, handled) = message_of-Reaches stale r m e in
    let (raw, encoded, decoded) =
      encode-deserialize laws max_message_size m sh valid fits structure known in
    let (rest, head) = encode-head laws max_message_size m valid fits in
    let same : raw ≡ type_byte m ∷ rest = ground arith in
    let parsed : deserialize (type_byte m ∷ rest) ≡ some m =
      subst (λ b. deserialize b ≡ some m) same decoded in
    (
      type_byte m ∷ rest,
      head,
      λ c p w.
          dispatched c p (type_byte m) rest t m w parsed type
          ∙ ap (λ (h : Handler). h w) (handled c p (type_byte m ∷ rest)),
    )
