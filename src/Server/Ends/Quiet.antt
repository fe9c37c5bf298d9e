-- ===== src/Server/Ends/Quiet.antt =====
-- ynetserver.cpp: the handlers that only send, under `Ends`.
use ynetserver_enet.Base.{
  ℕ, Option-cases, some, not, Bytes, nat_key, bytes_key, ◌==◌, Option, ◌∷◌, [], inl, inr,
}
use ynetserver_enet.Base.Dict.{Dict, lookup, has}
use ynetserver_enet.Stream.{Stream}
use ynetserver_enet.Message.{packet_to_server, packet_to_clients, packet_to_client, message}
use ynetserver_enet.Room.{Peer, Room, Client}
use ynetserver_enet.Server.{Server, World, get_client_for_peer}
use ynetserver_enet.Server.Leave.{find_member}
use ynetserver_enet.Server.Relay.{
  to_known, to_member, broadcast_to, broadcast_message, handle_rpc_to_server, handle_rpc_to_clients,
  handle_rpc_to_client, handle_packet_to_server, handle_packet_to_clients, handle_packet_to_client,
  forwarded_packet, forwarded_rpc,
}
use ynetserver_enet.Server.Info.{
  Json, handle_get_room_list, handle_get_room_info, page, listed_rooms, from_json,
}
use ynetserver_enet.Server.Ends.{
  Ends, Ends-some, Ends-bind, Ends-if, Ends-case, Ends-send_message, Ends-send_rpc_message,
  Ends-send_text, Ends-for_each,
}

module _ ⦃io : Stream⦄ (P : Server → Type 0) where
  to_known-Ends :
      (send : Peer → World → Option World)
      → ((p : Peer) (w : World) → P w.server → Ends P (send p w))
      → (p : Peer) (w : World) → P w.server
      → Ends P (to_known send p w)
  unfolding to_known
  to_known-Ends send body p w h =
      Ends-case P (get_client_for_peer p w) _ _ (λ _. Ends-some P w h) (λ c _. body p w h)

  to_member-Ends :
      (send : Peer → World → Option World)
      → ((p : Peer) (w : World) → P w.server → Ends P (send p w))
      → (target : ℕ) (room : Room) (w : World) → P w.server
      → Ends P (to_member send target room w)
  unfolding to_member
  to_member-Ends send body target room w h =
      Ends-case P (find_member target room.clients) _ _ (λ _. Ends-some P w h)
        (λ p _. to_known-Ends send body p w h)

  broadcast_to-Ends :
      (sender : Peer) (s : Bytes) (members : Dict Peer ℕ) (w : World)
      → P w.server
      → Ends P (broadcast_to sender s members w)
  unfolding broadcast_to
  broadcast_to-Ends sender s [] w h = Ends-some P w h
  broadcast_to-Ends sender s ((p, id) ∷ members) w h =
      Ends-if P (p == sender) _ _ (λ _. broadcast_to-Ends sender s members w h)
        (λ _.
          Ends-bind P P _ _ (Ends-send_text P p message s w h)
            (λ w' _ h'. broadcast_to-Ends sender s members w' h'))

  module _ (client : Client) (peer : Peer) (w : World) (h : P w.server) where
    stay : {A : Type 0} (x : A) → Ends P (some w)
    stay x = Ends-some P w h

    pub broadcast_message-Ends : (s : Bytes) → Ends P (broadcast_message client peer s w)
    unfolding broadcast_message
    broadcast_message-Ends s = Ends-case P (lookup client.current_room w.rooms) _ _ stay (λ room _.
        Ends-if P (not (room.protocol == client.protocol_version)) _ _ stay
          (λ _. broadcast_to-Ends peer s room.clients w h))

    pub handle_rpc_to_server-Ends :
        (k : ℕ) (b : Bytes) → Ends P (handle_rpc_to_server client peer k b w)
    unfolding handle_rpc_to_server
    handle_rpc_to_server-Ends k b =
        Ends-case P (lookup client.current_room w.rooms) _ _ stay (λ room _.
          Ends-if P (room.host == 0) _ _ stay (λ _.
            to_known-Ends _ (λ p w'. Ends-send_rpc_message P p (forwarded_rpc k b) w') room.host w
              h))

    pub handle_rpc_to_clients-Ends :
        (k : ℕ) (b : Bytes) → Ends P (handle_rpc_to_clients client peer k b w)
    unfolding handle_rpc_to_clients
    handle_rpc_to_clients-Ends k b =
        Ends-case P (lookup client.current_room w.rooms) _ _ stay (λ room _.
          Ends-if P (not (room.host == peer)) _ _ stay
            (λ _. Ends-for_each P _ (λ p w'. Ends-send_rpc_message P p _ w') peer room.clients w h))

    pub handle_rpc_to_client-Ends :
        (k : ℕ) (b : Bytes) → Ends P (handle_rpc_to_client client peer k b w)
    unfolding handle_rpc_to_client
    handle_rpc_to_client-Ends k b =
        Ends-case P (lookup client.current_room w.rooms) _ _ stay (λ room _.
          Ends-if P (not (room.host == peer)) _ _ stay (λ _.
            to_member-Ends _ (λ p w'. Ends-send_rpc_message P p (forwarded_rpc k b) w') k room w h))

    pub handle_packet_to_server-Ends :
        (b : Bytes) (flags channel : ℕ)
        → Ends P (handle_packet_to_server client peer b flags channel w)
    unfolding handle_packet_to_server
    handle_packet_to_server-Ends b flags channel =
        Ends-case P (lookup client.current_room w.rooms) _ _ stay (λ room _.
          Ends-if P (room.host == 0) _ _ stay (λ _.
            Ends-if P (not (has peer room.clients)) _ _ stay (λ _.
              to_known-Ends _
                (λ p w'.
                  Ends-send_message P p
                    (forwarded_packet packet_to_server client.id b flags channel) flags channel w')
                room.host w h)))

    pub handle_packet_to_clients-Ends :
        (b : Bytes) (flags channel : ℕ)
        → Ends P (handle_packet_to_clients client peer b flags channel w)
    unfolding handle_packet_to_clients
    handle_packet_to_clients-Ends b flags channel =
        Ends-case P (lookup client.current_room w.rooms) _ _ stay (λ room _.
          Ends-if P (not (room.host == peer)) _ _ stay (λ _.
            Ends-for_each P _
              (λ p w'.
                Ends-send_message P p (forwarded_packet packet_to_clients client.id b flags channel)
                  flags channel w')
              peer room.clients w h))

    pub handle_packet_to_client-Ends :
        (target : ℕ) (b : Bytes) (flags channel : ℕ)
        → Ends P (handle_packet_to_client client peer target b flags channel w)
    unfolding handle_packet_to_client
    handle_packet_to_client-Ends target b flags channel =
        Ends-case P (lookup client.current_room w.rooms) _ _ stay (λ room _.
          Ends-if P (not (room.host == peer)) _ _ stay (λ _.
            to_member-Ends _
              (λ p w'.
                Ends-send_message P p (forwarded_packet packet_to_client client.id b flags channel)
                  flags channel w')
              target room w h))

    pub handle_get_room_info-Ends : Ends P (handle_get_room_info client peer w)
    unfolding handle_get_room_info
    handle_get_room_info-Ends =
        Ends-case P (lookup client.current_room w.rooms) _ _ stay
          (λ room _. Ends-send_text P peer _ _ w h)

    pub handle_get_room_list-Ends :
        ⦃json : Json⦄ (s : Bytes) → Ends P (handle_get_room_list client peer s w)
    unfolding handle_get_room_list Ends
    handle_get_room_list-Ends s =
        let f = from_json s in
        let matching = listed_rooms f client.protocol_version w.rooms in
        elim (Option-cases (page f matching)) [
          | inl n ↦ rw n tt
          | inr (rooms, e) ↦ rw e (Ends-send_text P peer _ _ w h)
        ]
