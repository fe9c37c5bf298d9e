-- ===== src/Tests/Lists.antt =====
-- Lists of rooms: the first page of the world with one room, and page 0.
use mathlib.Core.List.{Memᴰ}
use ynetserver_enet.Base.Dict.{lookup}
use ynetserver_enet.Server.Join.Refusals.{Refused, handle_room_join-Refused}
use ynetserver_enet.Server.Join.Admission.{Admits}
use ynetserver_enet.Server.Join.{handle_room_join}
use ynetserver_enet.Server.Info.Listing.{Passes, listed_rooms-Passes}
use ynetserver_enet.Server.Invariant.Runs.{run-Inv}
use ynetserver_enet.Tests.Undone.{other_code}
use ynetserver_enet.Base.{
  ◌≡◌, refl, none, some, ℕ, ◌∷◌, [], ◌*◌, Bytes, bytes, bytes_eq, length, take, drop, arith, List,
  ◌↔◌, bytes_key,
}
use ynetserver_enet.Base.Int.{pos}
use ynetserver_enet.Stream.LittleEndian.{little_endian_laws}
use ynetserver_enet.Message.{text_message, get_room_list}
use ynetserver_enet.Room.{Room}
use ynetserver_enet.Server.{sends, emit}
use ynetserver_enet.Server.Send.{reliable}
use ynetserver_enet.Server.Dispatch.{handle_received_data}
use ynetserver_enet.Server.Info.{
  Json, from_json, run_steps, fill, listed_rooms, is_listed, handle_get_room_list, default_filters,
}
use ynetserver_enet.Server.Info.Answers.{
  matching, handle_get_room_list-page, handle_received_data-page_zero, list_text,
}
use ynetserver_enet.Tests.{stream, program, opened, zeros, opening, opened_ran}
use ynetserver_enet.Tests.Liveness.{guest, only_room}

-- A parser that finds page 0 in every text.
instance abbrev page_zero : Json
page_zero = record {
  Value = ℕ;
  parse = λ s. some 0;
  contains = λ j k. bytes_eq k (bytes "pageNumber");
  get_int = λ j k. some (pos 0);
  get_string = λ j k. none;
}

-- The wire form of a text, without its type.
abbrev asking : Bytes
asking = 4 ∷ 0 ∷ 0 ∷ 0 ∷ 2 ∷ 0 ∷ 0 ∷ 0 ∷ 123 ∷ 125 ∷ 0 ∷ 0 ∷ []

handle_received_data-page_zero_example : handle_received_data guest 8 (8 ∷ asking) opened ≡ none
unfolding program opened from_json fill run_steps
handle_received_data-page_zero_example =
    handle_received_data-page_zero guest 8 (bytes "{}") opened 8 asking 19 refl refl refl refl
      (omega arith)

abbrev rooms_of_guest : List Room
rooms_of_guest = matching guest 8 [] opened

handle_get_room_list-page_example :
    handle_get_room_list guest 8 [] opened
    ≡ some (
        emit
          (sends 8 0 reliable (
            text_message get_room_list
              (list_text (length rooms_of_guest) (take 20 (drop (0 * 20) rooms_of_guest)))))
          opened)
unfolding program opened from_json listed_rooms is_listed
handle_get_room_list-page_example =
    handle_get_room_list-page guest 8 [] opened little_endian_laws 0 20 refl refl (omega arith)
      (omega arith) (omega arith)

listed_rooms-Passes_example : Memᴰ only_room (listed_rooms default_filters 3 opened.rooms) ↔ (
    (code : Bytes) × (lookup code opened.rooms ≡ some only_room)
    × Passes default_filters 3 only_room)
listed_rooms-Passes_example =
    listed_rooms-Passes opened.server default_filters 3 only_room
      (run-Inv ⦃json = _⦄ zeros opening opened opened_ran)

absent : (room : Room) → lookup other_code opened.rooms ≡ some room → ¬ Admits guest [] room
unfolding program opened
absent room h = absurd (ground arith)

handle_room_join-Refused_example : Refused 8 opened (handle_room_join guest 8 other_code [] opened)
handle_room_join-Refused_example =
    handle_room_join-Refused little_endian_laws guest 8 other_code [] opened refl absent
