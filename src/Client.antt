-- ===== src/Client.antt =====
-- ynetclient.cpp and ynetclient.h: the requests and the incoming messages of `YNetClient`.
pub mod Requests
pub mod Commands
pub mod Connection
pub mod Stale
use ynetserver_enet.Base.{
  ℕ, suc, List, [], ◌∷◌, Option, none, some, Bool, true, false, Bytes, bytes, is_empty, ◌>>=◌,
  if◌then◌else◌, ◌==◌,
}
use ynetserver_enet.Base.Int.{ℤ, pos, negsuc}
use ynetserver_enet.Stream.{Stream}
use ynetserver_enet.Message.{
  AnyMessage, Packet, rpc, text, room_setting, create_with_password, join_with_password,
  room_joined, packet, text_message, code_of, type_of, room_create, room_leave, rpc_to_server,
  rpc_to_clients, rpc_to_client, message, get_room_list, confirm_room_creation, confirm_room_join,
  set_room_password, set_max_players, set_room_private, set_host_migration, set_room_name,
  set_extra_info, get_room_info, packet_to_server, packet_to_clients, packet_to_client, kick_client,
  join_room_with_password, join_or_create_room, join_or_create_room_random,
  create_room_with_password, not_message, MessageType,
}
use ynetserver_enet.Message.Wire.{encode}
use ynetserver_enet.Message.Parse.{deserialize}
use ynetserver_enet.Message.Parse.Reads.{type_byte}
use ynetserver_enet.Text.{to_string, stoi, wrap}

-- The members that the requests and the message loop use.
pub record YNetClient : Type 0 where
  pub is_connected : Bool
  pub current_room : Bytes
  pub current_room_id : ℕ

-- A call of one of the request functions with its arguments.
pub data Request : Type 0 where
  create_room : Bytes → Request
  join_room : Bytes → Bytes → Request
  leave_room : Request
  send_room_message : Bytes → Request
  create_room_with : Bytes → Bytes → Request
  join_room_with : Bytes → Bytes → Request
  join_or_create : Bytes → Bytes → Request
  join_or_create_random : Request
  room_password : Bytes → Request
  max_players : ℤ → Request
  room_private : Bool → Request
  host_migration : Bool → Request
  room_name : Bytes → Request
  extra_info : Bytes → Request
  room_info : Request
  room_list : Request
  kick_out : Bytes → Request
  call_server : ℕ → Bytes → Request
  call_clients : ℕ → Bytes → Request
  call_client : Bytes → ℕ → Bytes → Request
  packet_server : Bytes → Request
  packet_clients : Bytes → Request
  packet_client : Bytes → Bytes → Request

abbrev pub show_bool : Bool → Bytes
show_bool true = bytes "true"
show_bool false = bytes "false"

-- `std::to_string` of an `int`
unfoldable pub show_int : ℤ → Bytes
show_int (pos n) = to_string n
show_int (negsuc n) = b'-' ∷ to_string (suc n)

abbrev pub setting : MessageType → Bytes → AnyMessage
setting t s = room_setting (code_of t) s

-- The message of a request without arguments.
abbrev pub plain : MessageType → AnyMessage
plain t = text_message t []

abbrev pub called : MessageType → ℕ → Bytes → AnyMessage
called t k b = rpc (code_of t) k b

-- A packet with the default channel and flags.
abbrev pub packet_of : MessageType → ℕ → Bytes → AnyMessage
packet_of t target b = packet (record {
  type = code_of t;
  channel = 0;
  reliability_flags = 1;
  target_client_id = target;
  packet_data = b;
})

-- The message of a request. `stale` is what an uninitialized `targetClientId` holds; `none` is an
-- exception of `std::stoi`.
unfoldable pub message_of : ℕ → Request → Option AnyMessage
unfolding show_int
message_of stale (create_room code) = some (text_message room_create code)
message_of stale (join_room code password) =
    some (join_with_password (code_of join_room_with_password) code password)
message_of stale leave_room = some (plain room_leave)
message_of stale (send_room_message s) = some (text_message message s)
message_of stale (create_room_with code password) =
    some (create_with_password (code_of create_room_with_password) code password)
message_of stale (join_room_with code password) =
    some (join_with_password (code_of join_room_with_password) code password)
message_of stale (join_or_create code password) =
    some (join_with_password (code_of join_or_create_room) code password)
message_of stale join_or_create_random = some (plain join_or_create_room_random)
message_of stale (room_password s) = some (setting set_room_password s)
message_of stale (max_players z) = some (setting set_max_players (show_int z))
message_of stale (room_private b) = some (setting set_room_private (show_bool b))
message_of stale (host_migration b) = some (setting set_host_migration (show_bool b))
message_of stale (room_name s) = some (setting set_room_name s)
message_of stale (extra_info s) = some (setting set_extra_info s)
message_of stale room_info = some (plain get_room_info)
message_of stale room_list = some (plain get_room_list)
message_of stale (kick_out id) = some (text_message kick_client id)
message_of stale (call_server k b) = some (called rpc_to_server k b)
message_of stale (call_clients k b) = some (called rpc_to_clients k b)
message_of stale (call_client id k b) = do z ← stoi id; some (called rpc_to_client (wrap 16 z) b)
message_of stale (packet_server b) = some (packet_of packet_to_server stale b)
message_of stale (packet_clients b) = some (packet_of packet_to_clients stale b)
message_of stale (packet_client id b) = do
  z ← stoi id
  some (packet_of packet_to_client (wrap 32 z) b)

-- The two requests that want a room.
unfoldable pub is_refused : Request → YNetClient → Bool
is_refused leave_room c = is_empty c.current_room
is_refused (send_room_message s) c = is_empty c.current_room
is_refused _ c = false

-- What a request that went out does to the client's state.
unfoldable pub after_sending : Request → YNetClient → YNetClient
after_sending (join_room code password) c = record c { current_room = code }
after_sending (join_room_with code password) c = record c { current_room = code }
after_sending (join_or_create code password) c = record c { current_room = code }
after_sending leave_room c = record c { current_room = []; current_room_id = 0 }
after_sending _ c = c

abbrev pub max_message_size : ℕ
max_message_size = 4096

module _ ⦃io : Stream⦄ where
  -- `sendMessage`: the result, and the packet if there is one. `accepted` is what
  -- `enet_peer_send` says.
  unfoldable pub send_to_server : Bool → AnyMessage → YNetClient → Option (Bool × List Bytes)
  send_to_server accepted m c =
      if c.is_connected
      then (do b ← encode max_message_size m; some (accepted, b ∷ []))
      else some (false, [])

  -- A request: its result, the client after it, and the packets that it sends.
  unfoldable pub request : Bool → ℕ → Request → YNetClient → Option (Bool × YNetClient × List Bytes)
  unfolding message_of is_refused after_sending send_to_server
  request accepted stale r c = if is_refused r c then some (false, c, []) else (do
    m ← message_of stale r
    (sent, packets) ← send_to_server accepted m c
    some (sent, (if sent then after_sending r c else c), packets))

  -- The message loop on a message that it has parsed.
  unfoldable pub on_parsed : Option MessageType → AnyMessage → YNetClient → YNetClient
  on_parsed (some create_room_with_password) (create_with_password t code password) c = record c {
    current_room = code;
  }
  on_parsed (some confirm_room_creation) (text t code) c = record c { current_room = code }
  on_parsed (some confirm_room_join) (room_joined t code players) c = record c {
    current_room = code;
  }
  on_parsed _ m c = c

  -- The message loop on a packet; a `NOT_MESSAGE` ends the process.
  unfoldable pub on_receive : Bytes → YNetClient → Option YNetClient
  unfolding on_parsed
  on_receive b c = do
    m ← deserialize b
    if type_byte m == code_of not_message
        then none
        else some (on_parsed (type_of (type_byte m)) m c)

  unfoldable pub on_disconnected : YNetClient → YNetClient
  on_disconnected c = record c { is_connected = false; current_room = []; current_room_id = 0 }
