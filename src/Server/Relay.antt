-- ===== src/Server/Relay.antt =====
-- ynetserver.cpp: the handlers that pass a client's data on to the members of its room.
pub mod Delivery
pub mod Targets
use ynetserver_enet.Base.{
  ℕ, [], ◌∷◌, Option, none, some, not, Bytes, bytes, nat_key, bytes_key, ◌==◌, ◌>>=◌, if◌then◌else◌,
}
use ynetserver_enet.Base.Dict.{Dict, lookup, has}
use ynetserver_enet.Stream.{Stream}
use ynetserver_enet.Message.{
  AnyMessage, MessageType, rpc, packet, code_of, message, rpc_to_clients, packet_to_server,
  packet_to_clients, packet_to_client,
}
use ynetserver_enet.Room.{Peer, Room, Client}
use ynetserver_enet.Server.{World, get_client_for_peer}
use ynetserver_enet.Server.Send.{send_message, send_rpc_message, send_text, send_error, for_each}
use ynetserver_enet.Server.Leave.{find_member}

abbrev pub forwarded_rpc : ℕ → Bytes → AnyMessage
forwarded_rpc rpc_type b = rpc (code_of rpc_to_clients) rpc_type b

abbrev pub forwarded_packet : MessageType → ℕ → Bytes → ℕ → ℕ → AnyMessage
forwarded_packet t sender b flags channel = packet (record {
  type = code_of t;
  channel = channel;
  reliability_flags = flags;
  target_client_id = sender;
  packet_data = b;
})

module _ ⦃io : Stream⦄ where
  -- `if (otherClient != nullptr)` around a send to one peer.
  unfoldable pub to_known : (Peer → World → Option World) → Peer → World → Option World
  to_known send p w = elim (get_client_for_peer p w) [ none ↦ some w | some c ↦ send p w ]

  -- The loop of `broadcastMessage`, which does not look the client up.
  unfoldable pub broadcast_to : Peer → Bytes → Dict Peer ℕ → World → Option World
  broadcast_to sender s [] w = some w
  broadcast_to sender s ((p, id) ∷ members) w =
      let rest = broadcast_to sender s members in
      if p == sender then rest w else (do w' ← send_text p message s w; rest w')

  unfoldable pub broadcast_message : Client → Peer → Bytes → World → Option World
  unfolding broadcast_to
  broadcast_message client peer s w = elim (lookup client.current_room w.rooms) [
    | none ↦ some w
    | some room ↦
        if not (room.protocol == client.protocol_version)
        then some w
        else broadcast_to peer s room.clients w
  ]

  -- `handleRPC`, which nothing calls.
  unfoldable pub handle_rpc : Client → Peer → ℕ → Bytes → World → Option World
  handle_rpc client peer rpc_type b w = elim (lookup client.current_room w.rooms) [
    | none ↦ send_error peer (bytes "Room not found") w
    | some room ↦
        if not (room.protocol == client.protocol_version)
        then send_error peer (bytes "Protocol mismatch") w
        else for_each (λ p. send_rpc_message p (forwarded_rpc rpc_type b)) peer room.clients w
  ]

  unfoldable pub handle_rpc_to_server : Client → Peer → ℕ → Bytes → World → Option World
  unfolding to_known
  handle_rpc_to_server client peer rpc_type b w = elim (lookup client.current_room w.rooms) [
    | none ↦ some w
    | some room ↦
        if room.host == 0
        then some w
        else to_known (λ p. send_rpc_message p (forwarded_rpc rpc_type b)) room.host w
  ]

  unfoldable pub handle_rpc_to_clients : Client → Peer → ℕ → Bytes → World → Option World
  handle_rpc_to_clients client peer rpc_type b w = elim (lookup client.current_room w.rooms) [
    | none ↦ some w
    | some room ↦
        if not (room.host == peer)
        then some w
        else for_each (λ p. send_rpc_message p (forwarded_rpc rpc_type b)) peer room.clients w
  ]

  -- To the member with a client id, if there is one and its client is known.
  unfoldable pub to_member : (Peer → World → Option World) → ℕ → Room → World → Option World
  unfolding find_member to_known
  to_member send target room w = elim (find_member target room.clients) [
    | none ↦ some w
    | some p ↦ to_known send p w
  ]

  -- The RPC type serves as the client id.
  unfoldable pub handle_rpc_to_client : Client → Peer → ℕ → Bytes → World → Option World
  unfolding to_member
  handle_rpc_to_client client peer rpc_type b w = elim (lookup client.current_room w.rooms) [
    | none ↦ some w
    | some room ↦
        if not (room.host == peer)
        then some w
        else to_member (λ p. send_rpc_message p (forwarded_rpc rpc_type b)) rpc_type room w
  ]

  unfoldable pub handle_packet_to_server : Client → Peer → Bytes → ℕ → ℕ → World → Option World
  unfolding to_known
  handle_packet_to_server client peer b flags channel w =
      elim (lookup client.current_room w.rooms) [
        | none ↦ some w
        | some room ↦
            let m = forwarded_packet packet_to_server client.id b flags channel in
            if room.host == 0
            then some w
            else if not (has peer room.clients)
            then some w
            else to_known (λ p. send_message p m flags channel) room.host w
      ]

  unfoldable pub handle_packet_to_clients : Client → Peer → Bytes → ℕ → ℕ → World → Option World
  handle_packet_to_clients client peer b flags channel w =
      elim (lookup client.current_room w.rooms) [
        | none ↦ some w
        | some room ↦
            let m = forwarded_packet packet_to_clients client.id b flags channel in
            if not (room.host == peer)
            then some w
            else for_each (λ p. send_message p m flags channel) peer room.clients w
      ]

  unfoldable pub handle_packet_to_client : Client → Peer → ℕ → Bytes → ℕ → ℕ → World → Option World
  unfolding to_member
  handle_packet_to_client client peer target b flags channel w =
      elim (lookup client.current_room w.rooms) [
        | none ↦ some w
        | some room ↦
            let m = forwarded_packet packet_to_client client.id b flags channel in
            if not (room.host == peer)
            then some w
            else to_member (λ p. send_message p m flags channel) target room w
      ]
