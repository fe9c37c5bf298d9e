-- ===== src/Server/Liveness/Served.antt =====
-- ynetserver.cpp: `handleReceivedData` and `run`, under `Returns`.
use ynetserver_enet.Message.Wire.Items.{IsValid}
use ynetserver_enet.Base.{
  ℕ, ◌≤◌, ◌<◌, ◌≡◌, refl, [], ◌∷◌, Option, none, some, Bytes, length, nat_key, bytes_key, arith,
  false, ap,
}
use ynetserver_enet.Base.Dict.{contains}
use ynetserver_enet.Base.Int.{pos}
use ynetserver_enet.Stream.{Stream, Laws}
use ynetserver_enet.Message.{
  AnyMessage, MessageType, Packet, connection, rpc, text, packet, room_create, room_join,
  room_leave, rpc_to_server, rpc_to_clients, rpc_to_client, message, get_room_list,
  set_room_password, set_max_players, set_room_private, set_host_migration, set_room_name,
  set_extra_info, get_room_info, packet_to_server, packet_to_clients, packet_to_client, kick_client,
  join_room_with_password, join_or_create_room, join_or_create_room_random,
  create_room_with_password, type_of, code_of, confirm_connection,
}
use ynetserver_enet.Text.{wrap}
use ynetserver_enet.Room.{Peer, Client}
use ynetserver_enet.Server.{World, get_client_for_peer}
use ynetserver_enet.Server.Ids.Search.{generate_client_id-total, generate_client_id-unused}
use ynetserver_enet.Server.Info.{Json, handle_get_room_list}
use ynetserver_enet.Server.Send.{send_message, reliable}
use ynetserver_enet.Server.Dispatch.{
  Handler, given, text_in, setting_in, creation_in, join_in, rpc_in, packet_in, dispatch,
  dispatch_type, handle_received_data,
}
use ynetserver_enet.Server.Run.{
  Event, connect, receive, disconnect, disconnect_timeout, create_client_for_peer, on_connect,
  on_disconnect, step,
}
use ynetserver_enet.Server.Yields.{
  Returns, Yields-some, Yields-bind, Yields-send_text, send_in-fits, code_small,
}
use ynetserver_enet.Server.Liveness.{Live, Modest, Listable, Serviceable}
use ynetserver_enet.Server.Liveness.Enters.{
  handle_room_creation-Returns, handle_room_join-Returns, handle_join_or_create_room-Returns,
  handle_join_or_create_room_random-Returns,
}
use ynetserver_enet.Server.Liveness.Sends.{
  Returns-known, Passes, broadcast_message-Returns, handle_rpc_to_server-Returns,
  handle_rpc_to_clients-Returns, handle_rpc_to_client-Returns, handle_packet_to_server-Returns,
  handle_packet_to_clients-Returns, handle_packet_to_client-Returns, handle_room_leave-Returns,
  handle_get_room_info-Returns, kick_or_echo-Returns,
}

given-Returns :
    {A : Type 0} (x : Option A) (f : A → Handler) (w : World)
    → ((a : A) → x ≡ some a → Returns (f a w))
    → Returns (given x f w)
given-Returns none f w h = Yields-some (λ w. Unit) w tt
given-Returns (some a) f w h = h a refl

-- What a modest message holds is modest.
text_in-short : (m : AnyMessage) (s : Bytes) → Modest m → text_in m ≡ some s → length s ≤ 60000
unfolding text_in
text_in-short (text t u) s h e = ground arith
text_in-short _ s h e = absurd (ground arith)

rpc_in-short :
    (m : AnyMessage) (k : ℕ) (b : Bytes)
    → Modest m
    → rpc_in m ≡ some (k, b)
    → (k < 65536) × (length b ≤ 33)
unfolding rpc_in
rpc_in-short (rpc t l c) k b h e = ground arith
rpc_in-short _ k b h e = absurd (ground arith)

packet_in-Passes :
    (m : AnyMessage) (p : Packet) (client : Client)
    → client.id ≤ 65535
    → Modest m
    → packet_in m ≡ some p
    → Passes client p.packet_data p.reliability_flags p.channel
unfolding packet_in
packet_in-Passes (packet q) p client small h e = record {
  small_id = small;
  small_flags = ground arith;
  small_channel = ground arith;
  short = ground arith;
}
packet_in-Passes _ p client small h e = absurd (ground arith)

module _ ⦃io : Stream⦄ ⦃json : Json⦄ (laws : Laws io) (client : Client) (peer : Peer) (raw : Bytes)
    (w : World) (small : client.id ≤ 65535) (live : Live w.server) where
  lists :
      (filters : Bytes)
      → Listable client filters w.server
      → Returns (handle_get_room_list client peer filters w)
  unfolding handle_get_room_list
  lists filters (rooms, here, short) =
      rw here (Yields-send_text laws (λ w. Unit) peer get_room_list _ w short tt)

  setting-Returns :
      (m : AnyMessage) (f : Bytes → World → World)
      → Returns (given (setting_in m) (λ s v. some (f s v)) w)
  setting-Returns m f = given-Returns (setting_in m) _ w (λ s _. Yields-some (λ w. Unit) _ tt)

  dispatch-Returns :
      (t : MessageType) (m : AnyMessage)
      → Modest m
      → (t ≡ get_room_list
          → (filters : Bytes) → text_in m ≡ some filters
          → Listable client filters w.server)
      → Returns (dispatch client peer raw t m w)
  unfolding dispatch
  dispatch-Returns room_create m h l =
      given-Returns (text_in m) _ w
        (λ s _. handle_room_creation-Returns laws client peer s [] w live)
  dispatch-Returns create_room_with_password m h l =
      given-Returns (creation_in m) _ w
        (λ (s, u) _. handle_room_creation-Returns laws client peer s u w live)
  dispatch-Returns room_join m h l =
      given-Returns (text_in m) _ w
        (λ s _. handle_room_join-Returns laws client peer s [] w small live)
  dispatch-Returns join_room_with_password m h l =
      given-Returns (join_in m) _ w
        (λ (s, u) _. handle_room_join-Returns laws client peer s u w small live)
  dispatch-Returns room_leave m h l =
      given-Returns (text_in m) _ w (λ s _. handle_room_leave-Returns laws client peer w small)
  dispatch-Returns message m h l =
      given-Returns (text_in m) _ w
        (λ s e. broadcast_message-Returns laws client peer w s (text_in-short m s h e))
  dispatch-Returns rpc_to_server m h l = given-Returns (rpc_in m) _ w (λ (k, b) e.
      let (key, short) = rpc_in-short m k b h e in
      handle_rpc_to_server-Returns laws client peer w k b key short)
  dispatch-Returns rpc_to_clients m h l = given-Returns (rpc_in m) _ w (λ (k, b) e.
      let (key, short) = rpc_in-short m k b h e in
      handle_rpc_to_clients-Returns laws client peer w k b key short)
  dispatch-Returns rpc_to_client m h l = given-Returns (rpc_in m) _ w (λ (k, b) e.
      let (key, short) = rpc_in-short m k b h e in
      handle_rpc_to_client-Returns laws client peer w k b key short)
  dispatch-Returns set_room_password m h l = setting-Returns m _
  dispatch-Returns set_max_players m h l = setting-Returns m _
  dispatch-Returns set_room_private m h l = setting-Returns m _
  dispatch-Returns set_host_migration m h l = setting-Returns m _
  dispatch-Returns set_room_name m h l = setting-Returns m _
  dispatch-Returns set_extra_info m h l = setting-Returns m _
  dispatch-Returns get_room_info m h l =
      given-Returns (text_in m) _ w (λ s _. handle_get_room_info-Returns laws client peer w live)
  dispatch-Returns get_room_list m h l = given-Returns (text_in m) _ w (λ s e. lists s (l refl s e))
  dispatch-Returns packet_to_server m h l = given-Returns (packet_in m) _ w (λ p e.
      handle_packet_to_server-Returns laws client peer w p.packet_data p.reliability_flags p.channel
        (packet_in-Passes m p client small h e))
  dispatch-Returns packet_to_clients m h l = given-Returns (packet_in m) _ w (λ p e.
      handle_packet_to_clients-Returns laws client peer w p.packet_data p.reliability_flags
        p.channel (packet_in-Passes m p client small h e))
  dispatch-Returns packet_to_client m h l = given-Returns (packet_in m) _ w (λ p e.
      handle_packet_to_client-Returns laws client peer w (wrap 16 (pos p.target_client_id))
        p.packet_data p.reliability_flags p.channel (packet_in-Passes m p client small h e))
  dispatch-Returns kick_client m h l =
      given-Returns (text_in m) _ w (λ s _. kick_or_echo-Returns laws client peer w raw s live)
  dispatch-Returns join_or_create_room m h l =
      given-Returns (join_in m) _ w
        (λ (s, u) _. handle_join_or_create_room-Returns laws client peer s u w small live)
  dispatch-Returns join_or_create_room_random m h l =
      given-Returns (text_in m) _ w
        (λ s _. handle_join_or_create_room_random-Returns laws client peer w small live)
  dispatch-Returns _ m h l = Yields-some (λ w. Unit) w tt

  dispatch_type-Returns :
      (t : Option MessageType) (m : AnyMessage)
      → Modest m
      → (t ≡ some get_room_list
          → (filters : Bytes) → text_in m ≡ some filters
          → Listable client filters w.server)
      → Returns (dispatch_type client peer raw t m w)
  unfolding dispatch_type
  dispatch_type-Returns none m h l = Yields-some (λ w. Unit) w tt
  dispatch_type-Returns (some t) m h l = dispatch-Returns t m h (λ e. l (ap (λ u. some u) e))

module _ ⦃io : Stream⦄ (laws : Laws io) where
  on_connect-Returns :
      (peer : Peer) (protocol : ℕ) (w : World) (free : ℕ)
      → Live w.server
      → 1000 ≤ free
      → free ≤ 65535
      → contains free w.used_client_ids ≡ false
      → Returns (on_connect peer protocol w)
  unfolding on_connect create_client_for_peer send_message
  on_connect-Returns peer protocol w free live lo hi unused =
      let last = live.inv.next_client.1 in
      let (id, s, e) = generate_client_id-total w.server free last lo hi unused in
      let (fresh, from, to, same) = generate_client_id-unused w.server s id last e in
      let m : AnyMessage = connection (code_of confirm_connection) id in
      let valid : IsValid m = (code_small confirm_connection, (omega arith, tt)) in
      rw e (Returns-known _ _ (send_in-fits laws 65532 peer m reliable 0 _ valid (omega arith)))

  on_disconnect-Returns :
      (client : Client) (peer : Peer) (w : World)
      → client.id ≤ 65535
      → Returns (on_disconnect client peer w)
  unfolding on_disconnect
  on_disconnect-Returns client peer w small =
      Yields-bind (λ w. Unit) (λ w. Unit) _ _ (handle_room_leave-Returns laws client peer _ small)
        (λ v _. Yields-some (λ w. Unit) _ tt)

module _ ⦃io : Stream⦄ ⦃json : Json⦄ (laws : Laws io) where
  step-Returns :
      (e : Event) (w : World) → Live w.server → Serviceable e w.server → Returns (step e w)
  unfolding step get_client_for_peer handle_received_data
  step-Returns (connect peer protocol) w live (free, lo, hi, unused) =
      on_connect-Returns laws peer protocol w free live lo hi unused
  step-Returns (receive peer []) w live h = absurd h
  step-Returns (receive peer (c ∷ b)) w live (client, m, known, read, modest, listable) =
      rw (known, read)
        (dispatch_type-Returns laws client peer (c ∷ b) w
          (live.inv.clients.id_range peer client known).1 live (type_of c) m modest listable)
  step-Returns (disconnect peer) w live (client, known) =
      rw known
        (on_disconnect-Returns laws client peer w (live.inv.clients.id_range peer client known).1)
  step-Returns (disconnect_timeout peer) w live (client, known) =
      rw known
        (on_disconnect-Returns laws client peer w (live.inv.clients.id_range peer client known).1)

  -- On streams that keep their laws, the server serves an event and goes on, if: the invariant
  -- holds, a room id is free, and each room has at most 4000 members, under 16-bit ids, and an
  -- info of at most 60000 bytes; for a new connection, a client id is free; for a disconnection,
  -- the peer is known; and for a packet, the peer is known, the packet is read as a message, its
  -- text has at most 60000 bytes, its RPC a 16-bit type and at most 33 bytes of data, its packet
  -- 8-bit flags and channel and at most 60000 bytes of data, and, if it asks for the room list,
  -- the page that it asks for lies within the rooms and the answer has at most 60000 bytes.
  pub step-returns :
      (e : Event) (w : World)
      → Live w.server
      → Serviceable e w.server
      → (w' : World) × (step e w ≡ some w')
  step-returns e w live h = let y = step-Returns e w live h in (y.world, y.returns)
