-- ===== src/Server/Info/Answers.antt =====
-- ynetserver.cpp: what `handleGetRoomList` answers, by the page that it is asked for.
use ynetserver_enet.Text.Joined.{in_turn, with_commas}
use ynetserver_enet.Text.{to_string}
use ynetserver_enet.Server.Dispatch.{text_in, dispatch, dispatch_type, handle_received_data}
use ynetserver_enet.Base.{
  ℕ, suc, ◌+◌, ◌*◌, ◌^◌, ◌<◌, ◌≤◌, ◌≡◌, refl, List, ◌∷◌, none, some, Bytes, length, take, drop,
  nat_key, bytes_key, [], ◌++◌, map, not, is_empty, bytes, ap, if◌then◌else◌,
}
use ynetserver_enet.Base.Int.{pos}
use ynetserver_enet.Stream.{Stream, Laws}
use ynetserver_enet.Message.{get_room_list, text_message, type_of}
use ynetserver_enet.Message.Parse.{deserialize}
use ynetserver_enet.Room.{Peer, Room, Client}
use ynetserver_enet.Server.{World, sends, emit}
use ynetserver_enet.Server.Send.{reliable}
use ynetserver_enet.Server.Info.{
  Json, from_json, listed_rooms, room_list_json, handle_get_room_list, concat, entry, entries,
}
use ynetserver_enet.Server.Info.Pages.{page-part, page-zero}
use ynetserver_enet.Server.Yields.{send_text-fits}

-- What a list says of a room.
abbrev pub described : Room → Bytes
described room = in_turn (
    bytes "{\"code\":\""
    ∷ room.room_code
    ∷ bytes "\",\"players\":"
    ∷ to_string (length room.clients)
    ∷ bytes ",\"maxPlayers\":"
    ∷ to_string room.max_players
    ∷ (if not (is_empty room.room_name)
        then bytes ",\"name\":\"" ++ (room.room_name ++ bytes "\"")
        else [])
    ∷ (if not (is_empty room.password)
        then bytes ",\"pwd\":\"" ++ (to_string room.hashed_password ++ bytes "\"")
        else [])
    ∷ (if room.is_private then bytes ",\"isPrivate\":true" else [])
    ∷ (if not (is_empty room.extra_info)
        then bytes ",\"extra\":\"" ++ (room.extra_info ++ bytes "\"")
        else [])
    ∷ bytes "}"
    ∷ [])

-- The answer: how many rooms match, and what there is to say of those on the page.
abbrev pub list_text : ℕ → List Room → Bytes
list_text count rooms = in_turn (
    bytes "{\"total\":"
    ∷ to_string count
    ∷ bytes ",\"rooms\":["
    ∷ with_commas (map described rooms)
    ∷ bytes "]}"
    ∷ [])

entries-described : (rooms : List Room) → entries rooms ≡ with_commas (map described rooms)
unfolding entries entry concat
entries-described [] = refl
entries-described (r ∷ []) = refl
entries-described (r ∷ q ∷ rooms) =
    ap (λ u. described r ++ (bytes "," ++ u)) (entries-described (q ∷ rooms))

room_list_json-list_text :
    (count : ℕ) (rooms : List Room) → room_list_json count rooms ≡ list_text count rooms
unfolding room_list_json concat
room_list_json-list_text count rooms = rw (entries-described rooms) refl

module _ ⦃io : Stream⦄ ⦃json : Json⦄ (client : Client) (peer : Peer) (filters : Bytes)
    (w : World) where
  abbrev pub matching : List Room
  matching = listed_rooms (from_json filters) client.protocol_version w.rooms

  -- On streams that keep their laws, for filters with page k + 1 of pages of n rooms, where k and
  -- the last index of the page are within int, the sender gets one answer, if its text has at most
  -- 60000 bytes: it gives the number of the rooms that are listed, and describes the part of them
  -- that starts at index k * n and has at most n rooms, each with its code, number of players,
  -- limit, and, where it has them, its name, the hash of its password, its privacy and its extra
  -- info; the server's state stays.
  pub handle_get_room_list-page :
      Laws io
      → (k n : ℕ)
      → let answer : Bytes = list_text (length matching) (take n (drop (k * n) matching)) in
        (from_json filters).page_number ≡ pos (suc k)
        → (from_json filters).page_size ≡ pos n
        → k < 2 ^ 31
        → k * n + n < 2 ^ 31
        → length answer ≤ 60000
        → handle_get_room_list client peer filters w
          ≡ some (emit (sends peer 0 reliable (text_message get_room_list answer)) w)
  unfolding handle_get_room_list
  handle_get_room_list-page laws k n number size small fits short =
      let shown = take n (drop (k * n) matching) in
      rw
        (
          page-part (from_json filters) matching k n number size small fits,
          room_list_json-list_text (length matching) shown,
        )
        (send_text-fits laws peer get_room_list (list_text (length matching) shown) w short)

  handle_get_room_list-page_zero :
      (n : ℕ)
      → (from_json filters).page_number ≡ pos 0
      → (from_json filters).page_size ≡ pos (suc n)
      → suc n < 2 ^ 31
      → handle_get_room_list client peer filters w ≡ none
  unfolding handle_get_room_list
  handle_get_room_list-page_zero n number size fits =
      rw (page-zero (from_json filters) matching n number size fits) refl

  -- A packet whose type is that of a room list, that is read as a text message of that type, and
  -- whose filters ask for page 0 of pages of a positive size within int, ends the process, whoever
  -- sends it and whatever rooms there are.
  pub handle_received_data-page_zero :
      (c : ℕ) (b : Bytes) (n : ℕ)
      → type_of c ≡ some get_room_list
      → deserialize (c ∷ b) ≡ some (text_message get_room_list filters)
      → (from_json filters).page_number ≡ pos 0
      → (from_json filters).page_size ≡ pos (suc n)
      → suc n < 2 ^ 31
      → handle_received_data client peer (c ∷ b) w ≡ none
  unfolding handle_received_data dispatch_type dispatch text_in
  handle_received_data-page_zero c b n kind read number size fits =
      rw (read, kind) (handle_get_room_list-page_zero n number size fits)
