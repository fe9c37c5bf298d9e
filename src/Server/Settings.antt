-- ===== src/Server/Settings.antt =====
-- ynetserver.cpp: the handlers that change a room's settings.
pub mod Hosts
use ynetserver_enet.Base.{
  zero, suc, none, some, Bool, not, Bytes, bytes, nat_key, bytes_key, bytes_eq, ◌==◌, if◌then◌else◌,
}
use ynetserver_enet.Base.Int.{ℤ, pos, negsuc}
use ynetserver_enet.Base.Dict.{lookup}
use ynetserver_enet.Text.{stoi}
use ynetserver_enet.Room.{Peer, Room, Client}
use ynetserver_enet.Server.{World, set_room}
use ynetserver_enet.Server.Create.{hashed}

-- `roomIt == rooms.end() || roomIt->second.host != peer` returns; otherwise `f` changes the room.
unfoldable pub change_room : (Room → Room) → Client → Peer → World → World
change_room f client peer w = elim (lookup client.current_room w.rooms) [
  | none ↦ w
  | some room ↦ if not (room.host == peer) then w else set_room client.current_room (f room) w
]

abbrev pub with_password : Bytes → Room → Room
with_password s room = record room { password = s; hashed_password = hashed s }

unfoldable pub handle_set_room_password : Client → Peer → Bytes → World → World
unfolding change_room
handle_set_room_password client peer s = change_room (with_password s) client peer

-- A limit that is not positive is dropped.
unfoldable pub with_limit : ℤ → Room → Room
with_limit (pos zero) room = room
with_limit (pos (suc k)) room = record room { max_players = suc k }
with_limit (negsuc n) room = room

-- So is a text that `std::stoi` refuses.
unfoldable pub with_max_players : Bytes → Room → Room
unfolding with_limit
with_max_players s room = elim (stoi s) [ none ↦ room | some z ↦ with_limit z room ]

unfoldable pub handle_set_max_players : Client → Peer → Bytes → World → World
unfolding change_room with_max_players
handle_set_max_players client peer s = change_room (with_max_players s) client peer

abbrev pub is_true : Bytes → Bool
is_true s = bytes_eq s (bytes "true")

unfoldable pub handle_set_room_private : Client → Peer → Bytes → World → World
unfolding change_room
handle_set_room_private client peer s =
    change_room (λ room. record room { is_private = is_true s }) client peer

unfoldable pub handle_set_host_migration : Client → Peer → Bytes → World → World
unfolding change_room
handle_set_host_migration client peer s =
    change_room (λ room. record room { can_host_migrate = is_true s }) client peer

unfoldable pub handle_set_room_name : Client → Peer → Bytes → World → World
unfolding change_room
handle_set_room_name client peer s = change_room (λ room. record room { room_name = s }) client peer

unfoldable pub handle_set_extra_info : Client → Peer → Bytes → World → World
unfolding change_room
handle_set_extra_info client peer s =
    change_room (λ room. record room { extra_info = s }) client peer
