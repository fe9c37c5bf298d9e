-- ===== src/Server/Join.antt =====
-- ynetserver.cpp: `handleRoomJoin`, `handleJoinOrCreateRoom` and `handleJoinOrCreateRoomRandom`.
pub mod Admission
pub mod Refusals
use ynetserver_enet.Base.{
  ℕ, zero, suc, [], ◌∷◌, ◌++◌, map, List, Option, none, some, Bool, not, ◌&&◌, ◌||◌, Bytes, bytes,
  is_empty, length, keep, nat_key, bytes_key, bytes_eq, ltb, leb, ◌==◌, ◌>>=◌, if◌then◌else◌,
}
use ynetserver_enet.Base.Dict.{Dict, lookup, has, put}
use ynetserver_enet.Stream.{Stream}
use ynetserver_enet.Message.{code_of, confirm_room_join, player_joined, room_joined}
use ynetserver_enet.Text.{to_string}
use ynetserver_enet.Room.{Peer, Room, Client}
use ynetserver_enet.Room.Code.{draw, generate_room_code}
use ynetserver_enet.Server.{World, set_client, set_room}
use ynetserver_enet.Server.Send.{send_message, send_text, send_error, for_each, reliable}
use ynetserver_enet.Server.Create.{final_room_code, handle_room_creation}

-- `room.clients[room.host]`, which makes an entry 0 if there is none.
unfoldable pub host_id : Room → ℕ
host_id room = elim (lookup room.host room.clients) [ none ↦ 0 | some id ↦ id ]

unfoldable pub touch_host : Room → Room
touch_host room = elim (lookup room.host room.clients) [
  | none ↦ record room { clients = put room.host 0 room.clients }
  | some id ↦ room
]

-- The host first, then the others.
unfoldable pub player_ids : Room → List ℕ
unfolding host_id
player_ids room = host_id room ∷ map (λ e. e.1) (keep (λ e. not (e.0 == room.host)) room.clients)

unfoldable pub quoted : List ℕ → Bytes
unfolding to_string
quoted [] = []
quoted (id ∷ []) = bytes "\"" ++ (to_string id ++ bytes "\"")
quoted (id ∷ ids) = bytes "\"" ++ (to_string id ++ (bytes "\"," ++ quoted ids))

unfoldable pub json_players : List ℕ → Bytes
unfolding quoted
json_players ids = bytes "[" ++ (quoted ids ++ bytes "]")

abbrev pub at_capacity : Room → Bool
at_capacity room = leb room.max_players (length room.clients)

-- The test of the search for a random room.
unfoldable pub is_joinable : Bytes → ℕ → Room → Bool
is_joinable password protocol room =
    not room.is_private
    && ((is_empty room.password || bytes_eq room.password password)
        && (room.protocol == protocol && ltb (length room.clients) room.max_players))

unfoldable pub matching_rooms : Bytes → ℕ → Dict Bytes Room → List Bytes
unfolding is_joinable
matching_rooms password protocol rooms =
    map (λ e. e.0) (keep (λ e. is_joinable password protocol e.1) rooms)

-- `matchingRooms[i]`; the index is a draw below the size.
unfoldable pub element : List Bytes → ℕ → Bytes
element [] i = []
element (x ∷ xs) zero = x
element (x ∷ xs) (suc i) = element xs i

module _ ⦃io : Stream⦄ where
  -- What both branches do once the room is chosen.
  unfoldable pub enter_room : Client → Peer → Bytes → Room → World → Option World
  unfolding touch_host player_ids json_players
  enter_room client peer code room w = do
    let w₁ = set_client peer (record client { current_room = code; room_id = room.room_id }) w
    let joined = touch_host (record room { clients = put peer client.id room.clients })
    let w₂ = set_room code joined w₁
    let confirm = room_joined (code_of confirm_room_join) code (json_players (player_ids joined))
    w₃ ← send_message peer confirm reliable 0 w₂
    for_each (λ p. send_text p player_joined (to_string client.id)) peer joined.clients w₃

  unfoldable pub join_random : Client → Peer → Bytes → World → Option World
  unfolding enter_room draw element matching_rooms
  join_random client peer password w =
      let matching = matching_rooms password client.protocol_version w.rooms in
      let (k, r) = draw (length matching) w.random in
      let selected = element matching k in
      let w' = record w { random = r } in
      if is_empty matching
      then send_error peer (bytes "No available rooms found") w
      else elim (lookup selected w.rooms) [
        | none ↦ send_error peer (bytes "Selected room no longer available") w'
        | some room ↦ enter_room client peer selected room w'
      ]

  -- The checks on a room that was named.
  unfoldable pub join_found : Client → Peer → Bytes → Bytes → Room → World → Option World
  unfolding enter_room
  join_found client peer code password room w =
      if not (room.protocol == client.protocol_version)
      then send_error peer (bytes "Protocol version mismatch") w
      else if not (bytes_eq room.password password)
      then send_error peer (bytes "Invalid password") w
      else if room.is_private
      then send_error peer (bytes "Room is private") w
      else if at_capacity room
      then send_error peer (bytes "Room is full") w
      else enter_room client peer code room w

  unfoldable pub join_named : Client → Peer → Bytes → Bytes → World → Option World
  unfolding join_found
  join_named client peer code password w = elim (lookup code w.rooms) [
    | none ↦ send_error peer (bytes "Room not found") w
    | some room ↦ join_found client peer code password room w
  ]

  unfoldable pub handle_room_join : Client → Peer → Bytes → Bytes → World → Option World
  unfolding join_random join_named
  handle_room_join client peer code password w =
      if is_empty code
      then join_random client peer password w
      else join_named client peer code password w

  unfoldable pub handle_join_or_create_room : Client → Peer → Bytes → Bytes → World → Option World
  unfolding final_room_code
  handle_join_or_create_room client peer room_code password w =
      let (code, w') = final_room_code room_code w in
      if has code w'.rooms
      then handle_room_join client peer code password w'
      else handle_room_creation client peer code password w'

  -- The first room in map order that is open to all.
  unfoldable pub first_open : ℕ → Dict Bytes Room → Option Bytes
  first_open protocol [] = none
  first_open protocol ((code, room) ∷ rooms) =
      let rest = first_open protocol rooms in
      if not room.is_private
        && (is_empty room.password
            && (room.protocol == protocol && ltb (length room.clients) room.max_players))
      then some code
      else rest

  unfoldable pub handle_join_or_create_room_random : Client → Peer → World → Option World
  unfolding first_open
  handle_join_or_create_room_random client peer w =
      let (code, r) = generate_room_code w.random in
      elim (first_open client.protocol_version w.rooms) [
        | none ↦ handle_room_creation client peer code [] (record w { random = r })
        | some found ↦ handle_room_join client peer found [] w
      ]
