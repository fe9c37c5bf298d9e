-- ===== src/Server/Dispatch.antt =====
-- ynetserver.cpp: `handleReceivedData`.
pub mod Quiet
use ynetserver_enet.Base.{ℕ, [], ◌∷◌, Option, none, some, Bytes, ◌==◌, if◌then◌else◌, ◌>>=◌}
use ynetserver_enet.Stream.{Stream}
use ynetserver_enet.Message.{
  AnyMessage, MessageType, Packet, rpc, text, room_setting, create_with_password,
  join_with_password, packet, room_create, room_join, room_leave, rpc_to_server, rpc_to_clients,
  rpc_to_client, message, get_room_list, set_room_password, set_max_players, set_room_private,
  set_host_migration, set_room_name, set_extra_info, get_room_info, packet_to_server,
  packet_to_clients, packet_to_client, kick_client, join_room_with_password, join_or_create_room,
  join_or_create_room_random, create_room_with_password, type_of, code_of, not_message,
}
use ynetserver_enet.Message.Parse.{deserialize}
use ynetserver_enet.Base.Int.{pos}
use ynetserver_enet.Text.{stoi, wrap}
use ynetserver_enet.Room.{Peer, Client}
use ynetserver_enet.Server.{World, emit, echoes}
use ynetserver_enet.Server.Create.{handle_room_creation}
use ynetserver_enet.Server.Join.{
  handle_room_join, handle_join_or_create_room, handle_join_or_create_room_random,
}
use ynetserver_enet.Server.Leave.{handle_room_leave, handle_kick_client}
use ynetserver_enet.Server.Settings.{
  handle_set_room_password, handle_set_max_players, handle_set_room_private,
  handle_set_host_migration, handle_set_room_name, handle_set_extra_info,
}
use ynetserver_enet.Server.Relay.{
  broadcast_message, handle_rpc_to_server, handle_rpc_to_clients, handle_rpc_to_client,
  handle_packet_to_server, handle_packet_to_clients, handle_packet_to_client,
}
use ynetserver_enet.Server.Info.{Json, handle_get_room_list, handle_get_room_info}

abbrev pub Handler : Type 0
Handler = World → Option World

-- `dynamic_cast` to one structure and `message->type != NOT_MESSAGE`: the content, if both hold.
abbrev unless_not_message {ℓ} : {A : Type ℓ} → ℕ → A → Option A
unless_not_message t a = if t == code_of not_message then none else some a

unfoldable pub text_in : AnyMessage → Option Bytes
text_in (text t s) = unless_not_message t s
text_in _ = none

unfoldable pub setting_in : AnyMessage → Option Bytes
setting_in (room_setting t s) = unless_not_message t s
setting_in _ = none

unfoldable pub creation_in : AnyMessage → Option (Bytes × Bytes)
creation_in (create_with_password t s u) = unless_not_message t (s, u)
creation_in _ = none

unfoldable pub join_in : AnyMessage → Option (Bytes × Bytes)
join_in (join_with_password t s u) = unless_not_message t (s, u)
join_in _ = none

unfoldable pub rpc_in : AnyMessage → Option (ℕ × Bytes)
rpc_in (rpc t k b) = unless_not_message t (k, b)
rpc_in _ = none

unfoldable pub packet_in : AnyMessage → Option Packet
packet_in (packet p) = unless_not_message p.type p
packet_in _ = none

-- A handler on the content; without it, nothing is done.
abbrev pub given {ℓ} : {A : Type ℓ} → Option A → (A → Handler) → Handler
given none f w = some w
given (some a) f w = f a w

module _ ⦃io : Stream⦄ ⦃json : Json⦄ where
  -- The `catch` block sends the raw data back.
  unfoldable pub kick_or_echo : Client → Peer → Bytes → Bytes → Handler
  kick_or_echo client peer raw s w = elim (stoi s) [
    | none ↦ some (emit (echoes peer raw) w)
    | some z ↦ handle_kick_client client peer (wrap 16 z) w
  ]

  -- The `switch`.
  unfoldable pub dispatch : Client → Peer → Bytes → MessageType → AnyMessage → Handler
  unfolding kick_or_echo text_in setting_in creation_in join_in rpc_in packet_in
  dispatch client peer raw room_create m =
      given (text_in m) (λ s. handle_room_creation client peer s [])
  dispatch client peer raw create_room_with_password m =
      given (creation_in m) (λ (s, u). handle_room_creation client peer s u)
  dispatch client peer raw room_join m = given (text_in m) (λ s. handle_room_join client peer s [])
  dispatch client peer raw join_room_with_password m =
      given (join_in m) (λ (s, u). handle_room_join client peer s u)
  dispatch client peer raw room_leave m = given (text_in m) (λ s. handle_room_leave client peer)
  dispatch client peer raw message m = given (text_in m) (λ s. broadcast_message client peer s)
  dispatch client peer raw rpc_to_server m =
      given (rpc_in m) (λ (k, b). handle_rpc_to_server client peer k b)
  dispatch client peer raw rpc_to_clients m =
      given (rpc_in m) (λ (k, b). handle_rpc_to_clients client peer k b)
  dispatch client peer raw rpc_to_client m =
      given (rpc_in m) (λ (k, b). handle_rpc_to_client client peer k b)
  dispatch client peer raw set_room_password m =
      given (setting_in m) (λ s w. some (handle_set_room_password client peer s w))
  dispatch client peer raw set_max_players m =
      given (setting_in m) (λ s w. some (handle_set_max_players client peer s w))
  dispatch client peer raw set_room_private m =
      given (setting_in m) (λ s w. some (handle_set_room_private client peer s w))
  dispatch client peer raw set_host_migration m =
      given (setting_in m) (λ s w. some (handle_set_host_migration client peer s w))
  dispatch client peer raw set_room_name m =
      given (setting_in m) (λ s w. some (handle_set_room_name client peer s w))
  dispatch client peer raw set_extra_info m =
      given (setting_in m) (λ s w. some (handle_set_extra_info client peer s w))
  dispatch client peer raw get_room_info m =
      given (text_in m) (λ s. handle_get_room_info client peer)
  dispatch client peer raw get_room_list m =
      given (text_in m) (λ s. handle_get_room_list client peer s)
  dispatch client peer raw packet_to_server m =
      given (packet_in m)
        (λ p. handle_packet_to_server client peer p.packet_data p.reliability_flags p.channel)
  dispatch client peer raw packet_to_clients m =
      given (packet_in m)
        (λ p. handle_packet_to_clients client peer p.packet_data p.reliability_flags p.channel)
  dispatch client peer raw packet_to_client m = given (packet_in m) (λ p.
      handle_packet_to_client client peer (wrap 16 (pos p.target_client_id)) p.packet_data
        p.reliability_flags p.channel)
  dispatch client peer raw kick_client m = given (text_in m) (λ s. kick_or_echo client peer raw s)
  dispatch client peer raw join_or_create_room m =
      given (join_in m) (λ (s, u). handle_join_or_create_room client peer s u)
  dispatch client peer raw join_or_create_room_random m =
      given (text_in m) (λ s. handle_join_or_create_room_random client peer)
  dispatch client peer raw _ m = λ w. some w

  unfoldable pub dispatch_type : Client → Peer → Bytes → Option MessageType → AnyMessage → Handler
  unfolding dispatch
  dispatch_type client peer raw none m = λ w. some w
  dispatch_type client peer raw (some t) m = dispatch client peer raw t m

  -- Reading `data[0]` of an empty packet is undefined: `none`.
  unfoldable pub handle_received_data : Client → Peer → Bytes → Handler
  unfolding dispatch_type
  handle_received_data client peer [] w = none
  handle_received_data client peer (c ∷ b) w = do
    m ← deserialize (c ∷ b)
    dispatch_type client peer (c ∷ b) (type_of c) m w
