-- ===== src/Server/Leave.antt =====
-- ynetserver.cpp: `handleRoomLeave` and `handleKickClient`.
pub mod Migration
pub mod Returns
pub mod Members
pub mod Guests
pub mod Clearing
pub mod Closing
use ynetserver_enet.Base.{
  ℕ, [], ◌∷◌, Option, none, some, not, Bytes, bytes, nat_key, bytes_key, ◌==◌, ◌>>=◌, if◌then◌else◌,
}
use ynetserver_enet.Base.Dict.{Dict, lookup, erase}
use ynetserver_enet.Stream.{Stream}
use ynetserver_enet.Message.{message, player_left, host_left}
use ynetserver_enet.Text.{to_string}
use ynetserver_enet.Room.{Peer, Room, Client}
use ynetserver_enet.Server.{World, disconnects, emit, set_client, set_room, get_client_for_peer}
use ynetserver_enet.Server.Ids.{release_room_id}
use ynetserver_enet.Server.Send.{send_text, send_error, for_each}

-- The three lines that remove a room. The code reads `room.roomId` for the last one through a
-- reference into the entry that it has just erased; the model takes the value from before.
unfoldable pub remove_room : Bytes → ℕ → World → World
unfolding release_room_id
remove_room code room_id w =
    let s = release_room_id room_id w.server in
    record w {
      server = record s { rooms = erase code s.rooms; rooms_by_id = erase room_id s.rooms_by_id };
    }

-- `client->currentRoom = {}; client->roomId = 0;`
unfoldable pub forget_room : Client → Client
forget_room c = record c { current_room = []; room_id = 0 }

-- The members of a room: those of `peer`'s entry removed.
unfoldable pub without_peer : Peer → Room → Room
without_peer peer room = record room { clients = erase peer room.clients }

-- The first peer in iteration order, `room.clients.begin()->first`.
unfoldable pub first_peer : Dict Peer ℕ → Option Peer
first_peer [] = none
first_peer ((p, id) ∷ members) = some p

-- A client whose entry is there.
unfoldable pub clear_client : Peer → World → World
unfolding forget_room
clear_client p w = elim (get_client_for_peer p w) [
  | none ↦ w
  | some c ↦ set_client p (forget_room c) w
]

module _ ⦃io : Stream⦄ where
  -- The body of the loop that closes a room.
  unfoldable pub dismiss : ℕ → Peer → World → Option World
  unfolding clear_client
  dismiss id p w = do
    w₁ ← send_text p player_left (to_string id) w
    w₂ ← send_text p host_left (to_string id) w₁
    w₃ ← send_error p (bytes "The host has left the room.") w₂
    some (emit (disconnects p) (clear_client p w₃))

  unfoldable pub close_room : ℕ → Bytes → Room → World → Option World
  unfolding dismiss
  close_room id code room w = do
    w' ← for_each (dismiss id) 0 room.clients w
    some (remove_room code room.room_id w')

  unfoldable pub migrate_host : Bytes → Room → Peer → World → Option World
  migrate_host code room p w =
      let w' = set_room code (record room { host = p }) w in
      elim (get_client_for_peer p w') [
        | none ↦ some (remove_room code room.room_id w')
        | some c ↦ send_text p message (bytes "New host assigned") w'
      ]

  -- The part under `if (room.host == peer)`; `room` has lost the peer.
  unfoldable pub leave_as_host : ℕ → Bytes → Room → World → Option World
  unfolding close_room migrate_host
  leave_as_host id code room w = elim (first_peer room.clients) [
    | none ↦ some (remove_room code room.room_id w)
    | some p ↦
        if not room.can_host_migrate then close_room id code room w else migrate_host code room p w
  ]

  unfoldable pub leave_room : ℕ → Peer → Bytes → Room → World → Option World
  unfolding leave_as_host without_peer
  leave_room id peer code room w =
      let room' = without_peer peer room in
      let w' = set_room code room' w in
      if room.host == peer
      then leave_as_host id code room' w'
      else for_each (λ p. send_text p player_left (to_string id)) 0 room'.clients w'

  unfoldable pub handle_room_leave : Client → Peer → World → Option World
  unfolding leave_room forget_room
  handle_room_leave client peer w = elim (lookup client.current_room w.rooms) [
    | none ↦ some (set_client peer (forget_room client) w)
    | some room ↦ do
      w' ← leave_room client.id peer client.current_room room w
      some (set_client peer (forget_room client) w')
  ]

  -- The first member with the client id.
  unfoldable pub find_member : ℕ → Dict Peer ℕ → Option Peer
  find_member target [] = none
  find_member target ((p, id) ∷ members) =
      let rest = find_member target members in if id == target then some p else rest

  unfoldable pub kick : Peer → Client → World → Option World
  kick target c w = do
    w₁ ← send_error target (bytes "You have been kicked from the room") w
    w₂ ← handle_room_leave c target w₁
    some (emit (disconnects target) w₂)

  -- The part behind the checks on the room.
  unfoldable pub kick_member : ℕ → Room → World → Option World
  unfolding kick find_member
  kick_member target room w = elim (find_member target room.clients) [
    | none ↦ some w
    | some p ↦ elim (get_client_for_peer p w) [ none ↦ some w | some c ↦ kick p c w ]
  ]

  unfoldable pub handle_kick_client : Client → Peer → ℕ → World → Option World
  unfolding kick_member
  handle_kick_client client peer target w = elim (lookup client.current_room w.rooms) [
    | none ↦ some w
    | some room ↦ if not (room.host == peer) then some w else kick_member target room w
  ]
