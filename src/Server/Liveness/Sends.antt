-- ===== src/Server/Liveness/Sends.antt =====
-- ynetserver.cpp: the handlers that only send, and `handleKickClient`, under `Returns`.
use ynetserver_enet.Base.{
  ℕ, ◌≤◌, ◌<◌, ◌≡◌, Option, some, not, Bytes, length, nat_key, bytes_key, arith, ◌==◌, if-cases,
  option-cases,
}
use ynetserver_enet.Base.Dict.{lookup}
use ynetserver_enet.Stream.{Stream, Laws, total}
use ynetserver_enet.Message.{
  MessageType, get_room_info, packet_to_server, packet_to_clients, packet_to_client,
}
use ynetserver_enet.Message.Wire.Items.{items, IsValid}
use ynetserver_enet.Text.{stoi, wrap}
use ynetserver_enet.Room.{Peer, Client}
use ynetserver_enet.Server.{World, get_client_for_peer}
use ynetserver_enet.Server.Info.{Json, handle_get_room_info}
use ynetserver_enet.Server.Leave.{find_member, kick_member, handle_room_leave, handle_kick_client}
use ynetserver_enet.Server.Leave.Returns.{handle_room_leave-returns, kick-Yields}
use ynetserver_enet.Server.Relay.{
  forwarded_packet, broadcast_message, handle_rpc_to_server, handle_rpc_to_clients,
  handle_rpc_to_client, handle_packet_to_server, handle_packet_to_clients, handle_packet_to_client,
}
use ynetserver_enet.Server.Relay.Delivery.{
  handle_packet_to_clients-audience, handle_rpc_to_clients-audience, broadcast_message-listeners,
}
use ynetserver_enet.Server.Relay.Targets.{
  handle_packet_to_server-host, handle_packet_to_client-addressee, handle_rpc_to_server-host,
  handle_rpc_to_client-addressee,
}
use ynetserver_enet.Server.Dispatch.{kick_or_echo}
use ynetserver_enet.Server.Yields.{
  Returns, Yields-some, Yields-weaken, Yields-send_text, size_blob, fit_blob, code_small,
}
use ynetserver_enet.Server.Liveness.{Live}

-- What a result is known to be returns.
pub Returns-known : (m : Option World) (w : World) → m ≡ some w → Returns m
Returns-known m w e = record { world = w; returns = e; holds = tt }

-- A packet of a client goes on if the client could send it.
pub record Passes (client : Client) (b : Bytes) (flags channel : ℕ) : Type 0 where
  pub small_id : client.id ≤ 65535
  pub small_flags : flags < 256
  pub small_channel : channel < 256
  pub short : length b ≤ 60000

forwarded_packet-IsValid :
    (t : MessageType) (client : Client) (b : Bytes) (flags channel : ℕ)
    → Passes client b flags channel
    → IsValid (forwarded_packet t client.id b flags channel)
forwarded_packet-IsValid t client b flags channel h =
    let id = h.small_id in
    let short = h.short in
    (code_small t, (h.small_channel, (h.small_flags, (omega arith, (omega arith, fit_blob b)))))

forwarded_packet-fits :
    (t : MessageType) (client : Client) (b : Bytes) (flags channel : ℕ)
    → Passes client b flags channel
    → total (items (forwarded_packet t client.id b flags channel)) ≤ 65532
forwarded_packet-fits t client b flags channel h = omega (arith, size_blob b, h.short)

module _ ⦃io : Stream⦄ (laws : Laws io) (client : Client) (peer : Peer) (w : World) where
  pub broadcast_message-Returns :
      (s : Bytes) → length s ≤ 60000 → Returns (broadcast_message client peer s w)
  broadcast_message-Returns s short =
      Returns-known _ _ (broadcast_message-listeners laws client peer s w short)

  pub handle_rpc_to_server-Returns :
      (k : ℕ) (b : Bytes)
      → k < 65536
      → length b ≤ 33
      → Returns (handle_rpc_to_server client peer k b w)
  handle_rpc_to_server-Returns k b small short =
      Returns-known _ _ (handle_rpc_to_server-host laws client peer k b w small short)

  pub handle_rpc_to_clients-Returns :
      (k : ℕ) (b : Bytes)
      → k < 65536
      → length b ≤ 33
      → Returns (handle_rpc_to_clients client peer k b w)
  handle_rpc_to_clients-Returns k b small short =
      Returns-known _ _ (handle_rpc_to_clients-audience laws client peer k b w small short)

  pub handle_rpc_to_client-Returns :
      (k : ℕ) (b : Bytes)
      → k < 65536
      → length b ≤ 33
      → Returns (handle_rpc_to_client client peer k b w)
  handle_rpc_to_client-Returns k b small short =
      Returns-known _ _ (handle_rpc_to_client-addressee laws client peer k b w small short)

  pub handle_packet_to_server-Returns :
      (b : Bytes) (flags channel : ℕ)
      → Passes client b flags channel
      → Returns (handle_packet_to_server client peer b flags channel w)
  handle_packet_to_server-Returns b flags channel h = Returns-known _ _ (
      handle_packet_to_server-host laws client peer b flags channel w
        (forwarded_packet-IsValid packet_to_server client b flags channel h)
        (forwarded_packet-fits packet_to_server client b flags channel h))

  pub handle_packet_to_clients-Returns :
      (b : Bytes) (flags channel : ℕ)
      → Passes client b flags channel
      → Returns (handle_packet_to_clients client peer b flags channel w)
  handle_packet_to_clients-Returns b flags channel h = Returns-known _ _ (
      handle_packet_to_clients-audience laws client peer b flags channel w
        (forwarded_packet-IsValid packet_to_clients client b flags channel h)
        (forwarded_packet-fits packet_to_clients client b flags channel h))

  pub handle_packet_to_client-Returns :
      (target : ℕ) (b : Bytes) (flags channel : ℕ)
      → Passes client b flags channel
      → Returns (handle_packet_to_client client peer target b flags channel w)
  handle_packet_to_client-Returns target b flags channel h = Returns-known _ _ (
      handle_packet_to_client-addressee laws client peer target b flags channel w
        (forwarded_packet-IsValid packet_to_client client b flags channel h)
        (forwarded_packet-fits packet_to_client client b flags channel h))

  pub handle_room_leave-Returns : client.id ≤ 65535 → Returns (handle_room_leave client peer w)
  handle_room_leave-Returns small =
      let (v, ran, gone) = handle_room_leave-returns laws client peer w (omega arith) in
      Returns-known _ v ran

  pub handle_get_room_info-Returns : Live w.server → Returns (handle_get_room_info client peer w)
  unfolding handle_get_room_info
  handle_get_room_info-Returns live =
      option-cases Returns (lookup client.current_room w.rooms) _ _
        (λ _. Yields-some (λ w. Unit) _ tt)
        (λ room here.
          Yields-send_text laws (λ w. Unit) peer get_room_info _ w
            (live.small client.current_room room here).info tt)

  handle_kick_client-Returns :
      (target : ℕ) → Live w.server → Returns (handle_kick_client client peer target w)
  unfolding handle_kick_client kick_member get_client_for_peer
  handle_kick_client-Returns target live =
      let idle : Returns (some w) = Yields-some (λ w. Unit) w tt in
      option-cases Returns (lookup client.current_room w.rooms) _ _ (λ _. idle)
        (λ room _.
          if-cases Returns (not (room.host == peer)) _ _ (λ _. idle)
            (λ _.
              option-cases Returns (find_member target room.clients) _ _ (λ _. idle)
                (λ p _.
                  option-cases Returns (lookup p w.clients) _ _ (λ _. idle)
                    (λ c known.
                      let range = live.inv.clients.id_range p c known in
                      Yields-weaken _ (λ w. Unit) _ (λ v _. tt)
                        (kick-Yields laws p c w (omega (arith, range)))))))

  pub kick_or_echo-Returns :
      ⦃json : Json⦄ (raw s : Bytes) → Live w.server → Returns (kick_or_echo client peer raw s w)
  unfolding kick_or_echo
  kick_or_echo-Returns raw s live =
      option-cases Returns (stoi s) _ _ (λ _. Yields-some (λ w. Unit) _ tt)
        (λ z _. handle_kick_client-Returns (wrap 16 z) live)
