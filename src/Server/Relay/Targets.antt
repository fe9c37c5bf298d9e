-- ===== src/Server/Relay/Targets.antt =====
-- ynetserver.cpp: the handlers that pass data on to one peer, the host or a chosen member.
use ynetserver_enet.Base.{
  ℕ, ◌≤◌, ◌<◌, ◌≡◌, ◌∙◌, List, [], ◌∷◌, Option, none, some, not, keep, Bytes, length, nat_key,
  bytes_key, arith, ◌==◌, Option-cases, Bool-cases, inl, inr, if◌then◌else◌,
}
use ynetserver_enet.Base.Dict.{lookup, has}
use ynetserver_enet.Stream.{Stream, Laws, total}
use ynetserver_enet.Message.{AnyMessage, packet_to_server, packet_to_client}
use ynetserver_enet.Message.Wire.Items.{items, IsValid}
use ynetserver_enet.Room.{Peer, Room, Client}
use ynetserver_enet.Server.{World, sends, emit, get_client_for_peer}
use ynetserver_enet.Server.Send.{
  send_message, send_rpc_message, reliable, buffer_size, rpc_buffer_size,
}
use ynetserver_enet.Server.Leave.{find_member}
use ynetserver_enet.Server.Leave.Members.{first_with, first_with-find_member}
use ynetserver_enet.Server.Relay.{
  forwarded_rpc, forwarded_packet, to_known, to_member, handle_rpc_to_server, handle_rpc_to_client,
  handle_packet_to_server, handle_packet_to_client,
}
use ynetserver_enet.Server.Relay.Delivery.{deliver, deliver-nil, deliver-cons, Sure}
use ynetserver_enet.Server.Yields.{send_in-fits, size_blob, fit_blob}

-- A peer, if the server knows its client.
unfoldable pub if_known : Peer → World → List Peer
if_known p w = if has p w.clients then p ∷ [] else []

if_known-keep : (p : Peer) (w : World) → keep (λ q. has q w.clients) (p ∷ []) ≡ if_known p w
unfolding if_known
if_known-keep p w = ground arith

-- The first member with a client id, if there is one that the server knows.
unfoldable pub known_member : ℕ → Room → World → List Peer
known_member target room w = keep (λ p. has p w.clients) (first_with target room.clients)

-- Whom a packet for the server reaches: the host of the sender's room, if the sender is a member.
unfoldable pub host_for_member : Client → Peer → World → List Peer
unfolding if_known
host_for_member client peer w = elim (lookup client.current_room w.rooms) [
  | none ↦ []
  | some room ↦
      if room.host == 0 then [] else if has peer room.clients then if_known room.host w else []
]

-- Whom an RPC for the server reaches: the host of the room that the sender names, member or not.
unfoldable pub host_for_anyone : Client → World → List Peer
unfolding if_known
host_for_anyone client w = elim (lookup client.current_room w.rooms) [
  | none ↦ []
  | some room ↦ if room.host == 0 then [] else if_known room.host w
]

-- Whom a host's data for one client id reaches; a guest's data reaches nobody.
unfoldable pub addressee : Client → Peer → ℕ → World → List Peer
unfolding known_member
addressee client peer target w = elim (lookup client.current_room w.rooms) [
  | none ↦ []
  | some room ↦ if room.host == peer then known_member target room w else []
]

module _ ⦃io : Stream⦄ (send : Peer → World → Option World) (m : AnyMessage) (flags channel : ℕ)
    (sure : Sure send m flags channel) where
  to_known-if_known :
      (p : Peer) (w : World) → to_known send p w ≡ some (deliver m flags channel (if_known p w) w)
  unfolding to_known if_known get_client_for_peer
  to_known-if_known p w = elim (Option-cases (lookup p w.clients)) [
    | inl n ↦ rw (n, to_known) (deliver-nil m flags channel w)
    | inr (c, s) ↦
        rw (s, to_known, sure p w)
          (deliver-nil m flags channel (emit (sends p channel flags m) w)
            ∙ deliver-cons m flags channel p [] w)
  ]

  to_member-known_member :
      (target : ℕ) (room : Room) (w : World)
      → to_member send target room w ≡ some (deliver m flags channel (known_member target room w) w)
  unfolding to_member known_member
  to_member-known_member target room w = elim (Option-cases (find_member target room.clients)) [
    | inl n ↦
        rw (first_with-find_member target room.clients, n, to_member)
          (deliver-nil m flags channel w)
    | inr (p, s) ↦
        rw (first_with-find_member target room.clients, s, to_member, if_known-keep p w)
          (to_known-if_known p w)
  ]

  to_host_for_anyone :
      (client : Client) (w : World)
      → (elim (lookup client.current_room w.rooms) [
        | none ↦ some w
        | some room ↦ if room.host == 0 then some w else to_known send room.host w
      ])
        ≡ some (deliver m flags channel (host_for_anyone client w) w)
  unfolding host_for_anyone
  to_host_for_anyone client w = elim (Option-cases (lookup client.current_room w.rooms)) [
    | inl n ↦ rw (n, host_for_anyone) (deliver-nil m flags channel w)
    | inr (room, e) ↦ elim (Bool-cases (room.host == 0)) [
      | inl h ↦ rw (e, host_for_anyone, h) (deliver-nil m flags channel w)
      | inr h ↦ rw (e, host_for_anyone, h) (to_known-if_known room.host w)
    ]
  ]

  to_host_for_member :
      (client : Client) (peer : Peer) (w : World)
      → (elim (lookup client.current_room w.rooms) [
        | none ↦ some w
        | some room ↦
            if room.host == 0
            then some w
            else if not (has peer room.clients)
            then some w
            else to_known send room.host w
      ])
        ≡ some (deliver m flags channel (host_for_member client peer w) w)
  unfolding host_for_member
  to_host_for_member client peer w = elim (Option-cases (lookup client.current_room w.rooms)) [
    | inl n ↦ rw (n, host_for_member) (deliver-nil m flags channel w)
    | inr (room, e) ↦ elim (Bool-cases (room.host == 0)) [
      | inl h ↦ rw (e, host_for_member, h) (deliver-nil m flags channel w)
      | inr h ↦ elim (Bool-cases (has peer room.clients)) [
        | inl k ↦ rw (e, host_for_member, h, k) (to_known-if_known room.host w)
        | inr k ↦ rw (e, host_for_member, h, k) (deliver-nil m flags channel w)
      ]
    ]
  ]

  to_addressee :
      (client : Client) (peer : Peer) (target : ℕ) (w : World)
      → (elim (lookup client.current_room w.rooms) [
        | none ↦ some w
        | some room ↦ if not (room.host == peer) then some w else to_member send target room w
      ])
        ≡ some (deliver m flags channel (addressee client peer target w) w)
  unfolding addressee
  to_addressee client peer target w = elim (Option-cases (lookup client.current_room w.rooms)) [
    | inl n ↦ rw (n, addressee) (deliver-nil m flags channel w)
    | inr (room, e) ↦ elim (Bool-cases (room.host == peer)) [
      | inl h ↦ rw (e, addressee, h) (to_member-known_member target room w)
      | inr h ↦ rw (e, addressee, h) (deliver-nil m flags channel w)
    ]
  ]

module _ ⦃io : Stream⦄ (laws : Laws io) (client : Client) (peer : Peer) where
  send_message-Sure :
      (m : AnyMessage) (flags channel : ℕ)
      → IsValid m
      → total (items m) ≤ buffer_size
      → Sure (λ p. send_message p m flags channel) m flags channel
  unfolding send_message
  send_message-Sure m flags channel valid fits p w =
      send_in-fits laws buffer_size p m flags channel w valid fits

  send_rpc_message-Sure :
      (k : ℕ) (b : Bytes)
      → k < 65536
      → length b ≤ 33
      → Sure (λ p. send_rpc_message p (forwarded_rpc k b)) (forwarded_rpc k b) reliable 0
  unfolding send_rpc_message
  send_rpc_message-Sure k b small short p w =
      send_in-fits laws rpc_buffer_size p (forwarded_rpc k b) reliable 0 w
        (omega arith, (small, (omega arith, fit_blob b))) (omega (arith, size_blob b))

  -- On streams that keep their laws, a valid packet for the server that fits the buffer goes out
  -- once to the host of the sender's room, if the sender is a member of that room, its host is set
  -- and the server knows the host's client, and else to nobody; the server's state stays.
  pub handle_packet_to_server-host :
      (b : Bytes) (flags channel : ℕ) (w : World)
      → let m : AnyMessage = forwarded_packet packet_to_server client.id b flags channel in
        IsValid m
        → total (items m) ≤ buffer_size
        → handle_packet_to_server client peer b flags channel w
          ≡ some (deliver m flags channel (host_for_member client peer w) w)
  unfolding handle_packet_to_server
  handle_packet_to_server-host b flags channel w valid fits =
      let m : AnyMessage = forwarded_packet packet_to_server client.id b flags channel in
      to_host_for_member _ m flags channel (send_message-Sure m flags channel valid fits) client
        peer w

  -- On streams that keep their laws, a valid packet for one client that fits the buffer goes out
  -- once to the first member of the sender's room with the target's client id, if the sender hosts
  -- the room and the server knows that member's client, and else to nobody; the server's state
  -- stays.
  pub handle_packet_to_client-addressee :
      (target : ℕ) (b : Bytes) (flags channel : ℕ) (w : World)
      → let m : AnyMessage = forwarded_packet packet_to_client client.id b flags channel in
        IsValid m
        → total (items m) ≤ buffer_size
        → handle_packet_to_client client peer target b flags channel w
          ≡ some (deliver m flags channel (addressee client peer target w) w)
  unfolding handle_packet_to_client
  handle_packet_to_client-addressee target b flags channel w valid fits =
      let m : AnyMessage = forwarded_packet packet_to_client client.id b flags channel in
      to_addressee _ m flags channel (send_message-Sure m flags channel valid fits) client peer
        target w

  -- On streams that keep their laws, an RPC for the server with a 16-bit type and at most 33 bytes
  -- of data goes out once to the host of the sender's room, if its host is set and known, whether
  -- or not the sender is a member, and else to nobody; the server's state stays.
  pub handle_rpc_to_server-host :
      (k : ℕ) (b : Bytes) (w : World)
      → k < 65536
      → length b ≤ 33
      → handle_rpc_to_server client peer k b w
        ≡ some (deliver (forwarded_rpc k b) reliable 0 (host_for_anyone client w) w)
  unfolding handle_rpc_to_server
  handle_rpc_to_server-host k b w small short =
      to_host_for_anyone _ (forwarded_rpc k b) reliable 0 (send_rpc_message-Sure k b small short)
        client w

  -- On streams that keep their laws, an RPC for one client with a 16-bit type and at most 33 bytes
  -- of data goes out once to the first member of the sender's room whose client id is the RPC's
  -- type, if the sender hosts the room and that member's client is known, and else to nobody; the
  -- server's state stays.
  pub handle_rpc_to_client-addressee :
      (k : ℕ) (b : Bytes) (w : World)
      → k < 65536
      → length b ≤ 33
      → handle_rpc_to_client client peer k b w
        ≡ some (deliver (forwarded_rpc k b) reliable 0 (addressee client peer k w) w)
  unfolding handle_rpc_to_client
  handle_rpc_to_client-addressee k b w small short =
      to_addressee _ (forwarded_rpc k b) reliable 0 (send_rpc_message-Sure k b small short) client
        peer k w
