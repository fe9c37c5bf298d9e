-- ===== src/Server/Ends/Receives.antt =====
-- What holds of the server when `handleReceivedData` returns, from what holds after each handler.
use ynetserver_enet.Base.{[], ◌∷◌, Option, none, some, Bytes, nat_key, Option-cases, inl, inr}
use ynetserver_enet.Base.Int.{pos}
use ynetserver_enet.Stream.{Stream}
use ynetserver_enet.Message.{
  AnyMessage, MessageType, type_of, create_room_with_password, get_room_info, get_room_list,
  join_or_create_room, join_or_create_room_random, join_room_with_password, kick_client, message,
  packet_to_client, packet_to_clients, packet_to_server, room_create, room_join, room_leave,
  rpc_to_client, rpc_to_clients, rpc_to_server, set_extra_info, set_host_migration, set_max_players,
  set_room_name, set_room_password, set_room_private,
}
use ynetserver_enet.Message.Parse.{deserialize}
use ynetserver_enet.Text.{stoi, wrap}
use ynetserver_enet.Room.{Peer, Client}
use ynetserver_enet.Server.{Server, World, emit}
use ynetserver_enet.Server.Info.{Json}
use ynetserver_enet.Server.Dispatch.{
  Handler, given, text_in, setting_in, creation_in, join_in, rpc_in, packet_in, kick_or_echo,
  dispatch, dispatch_type, handle_received_data,
}
use ynetserver_enet.Server.Ends.{Ends, Ends-some, Ends-case}
use ynetserver_enet.Server.Ends.Quiet.{
  broadcast_message-Ends, handle_get_room_info-Ends, handle_get_room_list-Ends,
  handle_packet_to_client-Ends, handle_packet_to_clients-Ends, handle_packet_to_server-Ends,
  handle_rpc_to_client-Ends, handle_rpc_to_clients-Ends, handle_rpc_to_server-Ends,
}
use ynetserver_enet.Base.{ℕ}
use ynetserver_enet.Server.Create.{handle_room_creation}
use ynetserver_enet.Server.Join.{
  handle_room_join, handle_join_or_create_room, handle_join_or_create_room_random,
}
use ynetserver_enet.Server.Leave.{handle_room_leave, handle_kick_client}
use ynetserver_enet.Server.Settings.{
  handle_set_room_password, handle_set_max_players, handle_set_room_private,
  handle_set_host_migration, handle_set_room_name, handle_set_extra_info,
}

given-Ends :
    {A : Type 0} (P : Server → Type 0) (x : Option A) (f : A → Handler) (w : World)
    → P w.server
    → ((a : A) → Ends P (f a w))
    → Ends P (given x f w)
given-Ends P none f w h e = Ends-some P w h
given-Ends P (some a) f w h e = e a

-- What is known of the handlers that change the server.
pub record Handlers ⦃io : Stream⦄ (P : Server → Type 0) (client : Client) (peer : Peer) (w : World)
    : Type 0 where
  pub stays : P w.server
  pub creates : (s u : Bytes) → Ends P (handle_room_creation client peer s u w)
  pub joins : (s u : Bytes) → Ends P (handle_room_join client peer s u w)
  pub joins_or_creates : (s u : Bytes) → Ends P (handle_join_or_create_room client peer s u w)
  pub joins_at_random : Ends P (handle_join_or_create_room_random client peer w)
  pub leaves : Ends P (handle_room_leave client peer w)
  pub kicks : (target : ℕ) → Ends P (handle_kick_client client peer target w)
  pub sets_password : (s : Bytes) → P (handle_set_room_password client peer s w).server
  pub sets_max_players : (s : Bytes) → P (handle_set_max_players client peer s w).server
  pub sets_private : (s : Bytes) → P (handle_set_room_private client peer s w).server
  pub sets_host_migration : (s : Bytes) → P (handle_set_host_migration client peer s w).server
  pub sets_name : (s : Bytes) → P (handle_set_room_name client peer s w).server
  pub sets_extra_info : (s : Bytes) → P (handle_set_extra_info client peer s w).server

module _ ⦃io : Stream⦄ ⦃json : Json⦄ (P : Server → Type 0) (client : Client) (peer : Peer)
    (raw : Bytes) (w : World) (h : Handlers P client peer w) where
  kick_or_echo-Ends : (s : Bytes) → Ends P (kick_or_echo client peer raw s w)
  unfolding kick_or_echo emit
  kick_or_echo-Ends s =
      Ends-case P (stoi s) _ _ (λ _. Ends-some P _ h.stays) (λ z _. h.kicks (wrap 16 z))

  dispatch-Ends : (t : MessageType) (m : AnyMessage) → Ends P (dispatch client peer raw t m w)
  unfolding dispatch
  dispatch-Ends room_create m = given-Ends P (text_in m) _ w h.stays (λ s. h.creates s [])
  dispatch-Ends create_room_with_password m =
      given-Ends P (creation_in m) _ w h.stays (λ (s, u). h.creates s u)
  dispatch-Ends room_join m = given-Ends P (text_in m) _ w h.stays (λ s. h.joins s [])
  dispatch-Ends join_room_with_password m =
      given-Ends P (join_in m) _ w h.stays (λ (s, u). h.joins s u)
  dispatch-Ends room_leave m = given-Ends P (text_in m) _ w h.stays (λ s. h.leaves)
  dispatch-Ends message m =
      given-Ends P (text_in m) _ w h.stays (λ s. broadcast_message-Ends P client peer w h.stays s)
  dispatch-Ends rpc_to_server m =
      given-Ends P (rpc_in m) _ w h.stays
        (λ (k, b). handle_rpc_to_server-Ends P client peer w h.stays k b)
  dispatch-Ends rpc_to_clients m =
      given-Ends P (rpc_in m) _ w h.stays
        (λ (k, b). handle_rpc_to_clients-Ends P client peer w h.stays k b)
  dispatch-Ends rpc_to_client m =
      given-Ends P (rpc_in m) _ w h.stays
        (λ (k, b). handle_rpc_to_client-Ends P client peer w h.stays k b)
  dispatch-Ends set_room_password m =
      given-Ends P (setting_in m) _ w h.stays (λ s. Ends-some P _ (h.sets_password s))
  dispatch-Ends set_max_players m =
      given-Ends P (setting_in m) _ w h.stays (λ s. Ends-some P _ (h.sets_max_players s))
  dispatch-Ends set_room_private m =
      given-Ends P (setting_in m) _ w h.stays (λ s. Ends-some P _ (h.sets_private s))
  dispatch-Ends set_host_migration m =
      given-Ends P (setting_in m) _ w h.stays (λ s. Ends-some P _ (h.sets_host_migration s))
  dispatch-Ends set_room_name m =
      given-Ends P (setting_in m) _ w h.stays (λ s. Ends-some P _ (h.sets_name s))
  dispatch-Ends set_extra_info m =
      given-Ends P (setting_in m) _ w h.stays (λ s. Ends-some P _ (h.sets_extra_info s))
  dispatch-Ends get_room_info m =
      given-Ends P (text_in m) _ w h.stays (λ s. handle_get_room_info-Ends P client peer w h.stays)
  dispatch-Ends get_room_list m =
      given-Ends P (text_in m) _ w h.stays
        (λ s. handle_get_room_list-Ends P client peer w h.stays s)
  dispatch-Ends packet_to_server m = given-Ends P (packet_in m) _ w h.stays (λ p.
      handle_packet_to_server-Ends P client peer w h.stays p.packet_data p.reliability_flags
        p.channel)
  dispatch-Ends packet_to_clients m = given-Ends P (packet_in m) _ w h.stays (λ p.
      handle_packet_to_clients-Ends P client peer w h.stays p.packet_data p.reliability_flags
        p.channel)
  dispatch-Ends packet_to_client m = given-Ends P (packet_in m) _ w h.stays (λ p.
      handle_packet_to_client-Ends P client peer w h.stays (wrap 16 (pos p.target_client_id))
        p.packet_data p.reliability_flags p.channel)
  dispatch-Ends kick_client m = given-Ends P (text_in m) _ w h.stays (λ s. kick_or_echo-Ends s)
  dispatch-Ends join_or_create_room m =
      given-Ends P (join_in m) _ w h.stays (λ (s, u). h.joins_or_creates s u)
  dispatch-Ends join_or_create_room_random m =
      given-Ends P (text_in m) _ w h.stays (λ s. h.joins_at_random)
  dispatch-Ends _ m = Ends-some P w h.stays

  dispatch_type-Ends :
      (t : Option MessageType) (m : AnyMessage) → Ends P (dispatch_type client peer raw t m w)
  unfolding dispatch_type
  dispatch_type-Ends none m = Ends-some P w h.stays
  dispatch_type-Ends (some t) m = dispatch-Ends t m

-- Whatever bytes a client sends.
pub handle_received_data-Ends :
    ⦃io : Stream⦄ ⦃json : Json⦄ (P : Server → Type 0) (client : Client) (peer : Peer) (raw : Bytes)
    (w : World)
    → Handlers P client peer w
    → Ends P (handle_received_data client peer raw w)
unfolding handle_received_data Ends
handle_received_data-Ends P client peer [] w h = tt
handle_received_data-Ends P client peer (c ∷ b) w h = elim (Option-cases (deserialize (c ∷ b))) [
  | inl n ↦ rw n tt
  | inr (m, e) ↦ rw e (dispatch_type-Ends P client peer (c ∷ b) w h (type_of c) m)
]
