-- ===== src/Message.antt =====
-- message.h: the message types and the message structures.
pub mod Names
pub mod Wire
pub mod Parse
pub mod RoundTrip
use ynetserver_enet.Base.{ℕ, ◌<◌, ◌≡◌, refl, Option, none, some, Bytes, ◌==◌, if◌then◌else◌, arith}

pub data MessageType : Type 0 where
  error room_create room_join room_leave rpc_to_server rpc_to_clients rpc_to_client : MessageType
  message get_room_list confirm_room_creation confirm_room_join player_joined : MessageType
  room_peer_join room_peer_left set_room_password set_max_players set_room_private : MessageType
  set_host_migration set_room_name set_extra_info get_room_info packet_to_server : MessageType
  packet_to_clients packet_to_client kick_client join_room_with_password : MessageType
  join_or_create_room join_or_create_room_random player_left create_room_with_password : MessageType
  host_left confirm_connection not_message : MessageType

-- The enumerator's value, which goes out as the first byte.
abbrev pub code_of : MessageType → ℕ
code_of error = 0
code_of room_create = 1
code_of room_join = 2
code_of room_leave = 3
code_of rpc_to_server = 4
code_of rpc_to_clients = 5
code_of rpc_to_client = 6
code_of message = 7
code_of get_room_list = 8
code_of confirm_room_creation = 9
code_of confirm_room_join = 10
code_of player_joined = 11
code_of room_peer_join = 12
code_of room_peer_left = 13
code_of set_room_password = 14
code_of set_max_players = 15
code_of set_room_private = 16
code_of set_host_migration = 17
code_of set_room_name = 18
code_of set_extra_info = 19
code_of get_room_info = 20
code_of packet_to_server = 21
code_of packet_to_clients = 22
code_of packet_to_client = 23
code_of kick_client = 24
code_of join_room_with_password = 25
code_of join_or_create_room = 26
code_of join_or_create_room_random = 27
code_of player_left = 28
code_of create_room_with_password = 29
code_of host_left = 30
code_of confirm_connection = 31
code_of not_message = 255

-- `static_cast<MessageType>` of a byte: `none` for a value that no enumerator has, which every
-- `switch` sends to its default.
unfoldable pub type_of : ℕ → Option MessageType
type_of c =
    if c == 0
    then some error
    else if c == 1
    then some room_create
    else if c == 2
    then some room_join
    else if c == 3
    then some room_leave
    else if c == 4
    then some rpc_to_server
    else if c == 5
    then some rpc_to_clients
    else if c == 6
    then some rpc_to_client
    else if c == 7
    then some message
    else if c == 8
    then some get_room_list
    else if c == 9
    then some confirm_room_creation
    else if c == 10
    then some confirm_room_join
    else if c == 11
    then some player_joined
    else if c == 12
    then some room_peer_join
    else if c == 13
    then some room_peer_left
    else if c == 14
    then some set_room_password
    else if c == 15
    then some set_max_players
    else if c == 16
    then some set_room_private
    else if c == 17
    then some set_host_migration
    else if c == 18
    then some set_room_name
    else if c == 19
    then some set_extra_info
    else if c == 20
    then some get_room_info
    else if c == 21
    then some packet_to_server
    else if c == 22
    then some packet_to_clients
    else if c == 23
    then some packet_to_client
    else if c == 24
    then some kick_client
    else if c == 25
    then some join_room_with_password
    else if c == 26
    then some join_or_create_room
    else if c == 27
    then some join_or_create_room_random
    else if c == 28
    then some player_left
    else if c == 29
    then some create_room_with_password
    else if c == 30
    then some host_left
    else if c == 31
    then some confirm_connection
    else if c == 255
    then some not_message
    else none

pub type_of-code_of : (t : MessageType) → type_of (code_of t) ≡ some t
unfolding type_of
type_of-code_of error = refl
type_of-code_of room_create = refl
type_of-code_of _ = refl

-- PacketMessage
pub record Packet : Type 0 where
  pub type : ℕ
  pub channel : ℕ
  pub reliability_flags : ℕ
  pub target_client_id : ℕ
  pub packet_data : Bytes

-- BaseMessage and the structures that extend it. The first field is `type`.
pub data AnyMessage : Type 0 where
  base : ℕ → AnyMessage
  connection : ℕ → ℕ → AnyMessage
  rpc : ℕ → ℕ → Bytes → AnyMessage
  text : ℕ → Bytes → AnyMessage
  room_setting : ℕ → Bytes → AnyMessage
  create_with_password : ℕ → Bytes → Bytes → AnyMessage
  join_with_password : ℕ → Bytes → Bytes → AnyMessage
  room_joined : ℕ → Bytes → Bytes → AnyMessage
  packet : Packet → AnyMessage
  room_info : ℕ → Bytes → AnyMessage

-- `Message` with a type and a string
abbrev pub text_message : MessageType → Bytes → AnyMessage
text_message t s = text (code_of t) s
