-- ===== src/Server/Info.antt =====
-- ynetserver.cpp: `RoomFilters::fromJson`, `handleGetRoomList` and `handleGetRoomInfo`.
pub mod Pages
pub mod Answers
pub mod Listing
use ynetserver_enet.Base.{
  ℕ, zero, suc, ◌-◌, List, [], ◌∷◌, ◌++◌, map, Option, none, some, Bool, not, ◌&&◌, ◌||◌, Bytes,
  bytes, is_empty, length, keep, nat_key, bytes_key, ltb, ◌==◌, ◌>>=◌, if◌then◌else◌, ◌^◌,
}
use ynetserver_enet.Base.Int.{ℤ, pos, negsuc, pos_part, ◌+ℤ◌, ◌-ℤ◌, ◌*ℤ◌, ltb_ℤ}
use ynetserver_enet.Base.Dict.{Dict, lookup}
use ynetserver_enet.Stream.{Stream}
use ynetserver_enet.Message.{get_room_list, get_room_info}
use ynetserver_enet.Text.{to_string, finds}
use ynetserver_enet.Room.{Peer, Room, Client}
use ynetserver_enet.Server.{World}
use ynetserver_enet.Server.Send.{send_text}

-- The calls to nlohmann::json. `parse` and the conversions throw where they yield `none`.
pub record Json : Type 1 where
  pub Value : Type 0
  pub parse : Bytes → Option Value
  pub contains : Value → Bytes → Bool
  pub get_int : Value → Bytes → Option ℤ
  pub get_string : Value → Bytes → Option Bytes

pub record RoomFilters : Type 0 where
  pub min_players : ℤ
  pub max_players : ℤ
  pub name_contains : Bytes
  pub extra_info_contains : Bytes
  pub page_size : ℤ
  pub page_number : ℤ

abbrev pub default_filters : RoomFilters
default_filters = record {
  min_players = pos 0;
  max_players = pos (2 ^ 31 - 1);
  name_contains = [];
  extra_info_contains = [];
  page_size = pos 20;
  page_number = pos 1;
}

-- The steps up to the first that throws.
unfoldable pub run_steps : List (RoomFilters → Option RoomFilters) → RoomFilters → RoomFilters
run_steps [] f = f
run_steps (step ∷ steps) f = elim (step f) [ none ↦ f | some f' ↦ run_steps steps f' ]

module _ ⦃json : Json⦄ where
  -- `if (j.contains(key)) filters.field = j[key];`
  int_field :
      json.Value → Bytes → (ℤ → RoomFilters → RoomFilters) → RoomFilters → Option RoomFilters
  int_field j key set f =
      if json.contains j key then (do z ← json.get_int j key; some (set z f)) else some f

  string_field :
      json.Value → Bytes → (Bytes → RoomFilters → RoomFilters) → RoomFilters → Option RoomFilters
  string_field j key set f =
      if json.contains j key then (do s ← json.get_string j key; some (set s f)) else some f

  unfoldable pub fill : json.Value → RoomFilters
  unfolding run_steps int_field string_field
  fill j =
      run_steps
        (int_field j (bytes "minPlayers") (λ z f. record f { min_players = z })
          ∷ int_field j (bytes "maxPlayers") (λ z f. record f { max_players = z })
          ∷ string_field j (bytes "nameContains") (λ s f. record f { name_contains = s })
          ∷ string_field j (bytes "extraInfoContains") (λ s f. record f { extra_info_contains = s })
          ∷ int_field j (bytes "pageSize") (λ z f. record f { page_size = z })
          ∷ int_field j (bytes "pageNumber") (λ z f. record f { page_number = z })
          ∷ [])
        default_filters

  unfoldable pub from_json : Bytes → RoomFilters
  unfolding fill
  from_json s =
      if is_empty s
      then default_filters
      else elim (json.parse s) [ none ↦ default_filters | some j ↦ fill j ]

-- The tests that a room passes to be listed.
unfoldable pub is_listed : RoomFilters → ℕ → Room → Bool
unfolding finds
is_listed f protocol room =
    (room.protocol == protocol)
    && (not (ltb_ℤ (pos (length room.clients)) f.min_players)
        && (not (ltb_ℤ f.max_players (pos (length room.clients)))
            && ((is_empty f.name_contains || finds f.name_contains room.room_name)
                && (is_empty f.extra_info_contains
                    || finds f.extra_info_contains room.extra_info))))

unfoldable pub listed_rooms : RoomFilters → ℕ → Dict Bytes Room → List Room
unfolding is_listed
listed_rooms f protocol rooms = map (λ e. e.1) (keep (λ e. is_listed f protocol e.1) rooms)

-- A signed operation whose result leaves `int` is undefined: `none`.
unfoldable pub as_int : ℤ → Option ℤ
as_int (pos n) = if ltb n (2 ^ 31) then some (pos n) else none
as_int (negsuc n) = if ltb n (2 ^ 31) then some (negsuc n) else none

abbrev pub min_ℤ : ℤ → ℤ → ℤ
min_ℤ a b = if ltb_ℤ b a then b else a

-- `startIndex` and `endIndex`
unfoldable pub page_bounds : RoomFilters → ℕ → Option (ℤ × ℤ)
unfolding as_int
page_bounds f count = do
  before ← as_int (f.page_number -ℤ pos 1)
  start ← as_int (before *ℤ f.page_size)
  stop ← as_int (start +ℤ f.page_size)
  some (start, min_ℤ stop (pos count))

-- `matchingRooms[i]`; an index outside the vector is undefined: `none`.
unfoldable pub room_at : List Room → ℕ → Option Room
room_at [] i = none
room_at (r ∷ rs) zero = some r
room_at (r ∷ rs) (suc i) = room_at rs i

unfoldable pub index : List Room → ℤ → Option Room
unfolding room_at
index rs (pos i) = room_at rs i
index rs (negsuc i) = none

-- The rooms that the loop visits from index i on, for the rounds left.
unfoldable pub page_from : ℕ → ℤ → List Room → Option (List Room)
unfolding index
page_from zero i rs = some []
page_from (suc n) i rs = do r ← index rs i; rest ← page_from n (i +ℤ pos 1) rs; some (r ∷ rest)

unfoldable pub page : RoomFilters → List Room → Option (List Room)
unfolding page_bounds page_from
page f rs = do
  (start, stop) ← page_bounds f (length rs)
  page_from (pos_part (stop -ℤ start)) start rs

unfoldable pub concat : List Bytes → Bytes
concat [] = []
concat (b ∷ bs) = b ++ concat bs

-- A part of the answer that stands there only if the test holds.
abbrev pub only_if : Bool → Bytes → Bytes
only_if b s = if b then s else []

entry : Room → Bytes
unfolding concat to_string
entry room = concat (
    bytes "{\"code\":\""
    ∷ room.room_code
    ∷ bytes "\",\"players\":"
    ∷ to_string (length room.clients)
    ∷ bytes ",\"maxPlayers\":"
    ∷ to_string room.max_players
    ∷ only_if (not (is_empty room.room_name))
        (bytes ",\"name\":\"" ++ (room.room_name ++ bytes "\""))
    ∷ only_if (not (is_empty room.password))
        (bytes ",\"pwd\":\"" ++ (to_string room.hashed_password ++ bytes "\""))
    ∷ only_if room.is_private (bytes ",\"isPrivate\":true")
    ∷ only_if (not (is_empty room.extra_info))
        (bytes ",\"extra\":\"" ++ (room.extra_info ++ bytes "\""))
    ∷ bytes "}"
    ∷ [])

entries : List Room → Bytes
unfolding entry
entries [] = []
entries (r ∷ []) = entry r
entries (r ∷ rs) = entry r ++ (bytes "," ++ entries rs)

unfoldable pub room_list_json : ℕ → List Room → Bytes
unfolding entries
room_list_json count rooms =
    concat (
      bytes "{\"total\":"
      ∷ to_string count
      ∷ bytes ",\"rooms\":["
      ∷ entries rooms
      ∷ bytes "]}"
      ∷ [])

unfoldable pub room_info_json : Room → Bytes
unfolding concat to_string
room_info_json room = concat (
    bytes "{\"roomId\":"
    ∷ to_string room.room_id
    ∷ bytes ",\"roomCode\":\""
    ∷ room.room_code
    ∷ bytes "\",\"roomName\":\""
    ∷ room.room_name
    ∷ bytes "\",\"protocol\":"
    ∷ to_string room.protocol
    ∷ bytes ",\"maxPlayers\":"
    ∷ to_string room.max_players
    ∷ bytes ",\"clientCount\":"
    ∷ to_string (length room.clients)
    ∷ only_if (not (room.hashed_password == 0))
        (bytes ",\"pwd\":\"" ++ (to_string room.hashed_password ++ bytes "\""))
    ∷ only_if room.is_private (bytes ",\"isPrivate\":true")
    ∷ only_if room.can_host_migrate (bytes ",\"canHostMigrate\":true")
    ∷ only_if (not (is_empty room.extra_info))
        (bytes ",\"extraInfo\":\"" ++ (room.extra_info ++ bytes "\""))
    ∷ bytes "}"
    ∷ [])

module _ ⦃io : Stream⦄ ⦃json : Json⦄ where
  unfoldable pub handle_get_room_list : Client → Peer → Bytes → World → Option World
  unfolding from_json listed_rooms page room_list_json
  handle_get_room_list client peer filters_json w = do
    let f = from_json filters_json
    let matching = listed_rooms f client.protocol_version w.rooms
    rooms ← page f matching
    send_text peer get_room_list (room_list_json (length matching) rooms) w

module _ ⦃io : Stream⦄ where
  unfoldable pub handle_get_room_info : Client → Peer → World → Option World
  unfolding room_info_json
  handle_get_room_info client peer w = elim (lookup client.current_room w.rooms) [
    | none ↦ some w
    | some room ↦ send_text peer get_room_info (room_info_json room) w
  ]
