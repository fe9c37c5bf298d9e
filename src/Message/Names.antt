-- ===== src/Message/Names.antt =====
-- message.cpp: `MessageTypeToString`.
use ynetserver_enet.Base.{ℕ, Option, none, some, Bytes, bytes}
use ynetserver_enet.Message.{
  MessageType, error, room_create, room_join, room_leave, rpc_to_server, rpc_to_clients,
  rpc_to_client, message, get_room_list, confirm_room_creation, confirm_room_join, player_joined,
  room_peer_join, room_peer_left, set_room_password, set_max_players, set_room_private,
  set_host_migration, set_room_name, set_extra_info, get_room_info, packet_to_server,
  packet_to_clients, packet_to_client, kick_client, join_room_with_password, join_or_create_room,
  join_or_create_room_random, player_left, create_room_with_password, host_left, confirm_connection,
  not_message, type_of,
}

name : Option MessageType → Bytes
name (some error) = bytes "ERROR"
name (some room_create) = bytes "ROOM_CREATE"
name (some room_join) = bytes "ROOM_JOIN"
name (some room_leave) = bytes "ROOM_LEAVE"
name (some rpc_to_server) = bytes "RPC_TO_SERVER"
name (some rpc_to_clients) = bytes "RPC_TO_CLIENTS"
name (some rpc_to_client) = bytes "RPC_TO_CLIENT"
name (some message) = bytes "MESSAGE"
name (some get_room_list) = bytes "GET_ROOM_LIST"
name (some confirm_room_creation) = bytes "CONFIRM_ROOM_CREATION"
name (some confirm_room_join) = bytes "CONFIRM_ROOM_JOIN"
name (some room_peer_join) = bytes "ROOM_PEER_JOIN"
name (some room_peer_left) = bytes "ROOM_PEER_LEFT"
name (some not_message) = bytes "NOT_MESSAGE"
name (some join_room_with_password) = bytes "JOIN_ROOM_WITH_PASSWORD"
name (some set_room_password) = bytes "SET_ROOM_PASSWORD"
name (some set_max_players) = bytes "SET_MAX_PLAYERS"
name (some set_room_private) = bytes "SET_ROOM_PRIVATE"
name (some set_host_migration) = bytes "SET_HOST_MIGRATION"
name (some set_room_name) = bytes "SET_ROOM_NAME"
name (some set_extra_info) = bytes "SET_EXTRA_INFO"
name (some get_room_info) = bytes "GET_ROOM_INFO"
name (some packet_to_server) = bytes "PACKET_TO_SERVER"
name (some packet_to_clients) = bytes "PACKET_TO_CLIENTS"
name (some packet_to_client) = bytes "PACKET_TO_CLIENT"
name (some kick_client) = bytes "KICK_CLIENT"
name (some join_or_create_room) = bytes "JOIN_OR_CREATE_ROOM"
name (some join_or_create_room_random) = bytes "JOIN_OR_CREATE_ROOM_RANDOM"
name (some player_joined) = bytes "PLAYER_JOINED"
name (some player_left) = bytes "PLAYER_LEFT"
name (some create_room_with_password) = bytes "CREATE_ROOM_WITH_PASSWORD"
name (some host_left) = bytes "HOST_LEFT"
name (some confirm_connection) = bytes "CONFIRM_CONNECTION"
name none = bytes "UNKNOWN"

pub message_type_to_string : ℕ → Bytes
unfolding name
message_type_to_string c = name (type_of c)
