-- ===== src/Tests.antt =====
-- Concrete runs: a byte stream for serialize.h, a JSON library that parses nothing, and worlds
-- that the tests share.
pub mod Worlds
pub mod Servers
pub mod Relays
pub mod Parts
pub mod Clients
pub mod Directories
pub mod Lists
pub mod Undone
pub mod Liveness
pub mod Sessions
pub mod Programs
use ynetserver_enet.Base.{
  ℕ, List, ◌≡◌, refl, [], ◌∷◌, Option, none, some, false, Bytes, bytes, length, nat_key, bytes_key,
  ◌>>=◌,
}
use ynetserver_enet.Base.{bytes_eq, bytes_before}
use ynetserver_enet.Base.Dict
use ynetserver_enet.Base.Dict.{lookup, insert, assign, erase, contains, include, exclude}
use ynetserver_enet.Server.{emit, get_client_for_peer, set_client, set_room}
use ynetserver_enet.Server.Send.{send_in, send_message, send_text, send_error, for_each}
use ynetserver_enet.Server.Ids.{
  generate_room_id, find_room_id, generate_client_id, find_client_id, release_room_id,
  release_client_id,
}
use ynetserver_enet.Server.Create.{handle_room_creation, new_room, hashed}
use ynetserver_enet.Server.Join.{handle_room_join, touch_host, json_players, player_ids}
use ynetserver_enet.Server.Leave.{handle_room_leave, remove_room, dismiss, first_peer}
use ynetserver_enet.Server.Dispatch.{handle_received_data, dispatch_type}
use ynetserver_enet.Server.Run.{on_connect, on_disconnect}
use ynetserver_enet.Room.Code.{is_valid_room_code, generate_room_code, draw, char_at}
use ynetserver_enet.Text.{to_string}
use ynetserver_enet.Hash.{string_to_hash}
use ynetserver_enet.Message.{type_of}
use ynetserver_enet.Message.Parse.{shape_for}
use ynetserver_enet.Stream.{Stream}
use ynetserver_enet.Stream.LittleEndian.{little_endian, put, encoded, to_le, take_le, get_bytes}
use ynetserver_enet.Message.{AnyMessage, text_message, room_create, room_join}
use ynetserver_enet.Message.Wire.{encode}
use ynetserver_enet.Message.Parse.{deserialize}
use ynetserver_enet.Server.{World, start}
use ynetserver_enet.Server.Info.{Json}
use ynetserver_enet.Server.Run.{Event, run, connect, receive, disconnect}

instance abbrev pub stream : Stream
stream = little_endian

instance abbrev pub no_json : Json
no_json = record {
  Value = ℕ;
  parse = λ s. none;
  contains = λ j k. false;
  get_int = λ j k. none;
  get_string = λ j k. none;
}

abbrev pub zeros : ℕ → ℕ
zeros n = 0

-- What a run computes with.
unfoldable pub program : Unit {0}
unfolding run on_connect on_disconnect encode put encoded to_le take_le get_bytes deserialize
    shape_for type_of lookup insert assign erase Dict.put contains include exclude bytes_eq
    bytes_before emit get_client_for_peer set_client set_room send_in send_message send_text
    send_error for_each generate_room_id find_room_id generate_client_id find_client_id
    release_room_id release_client_id handle_room_creation new_room hashed is_valid_room_code
    generate_room_code draw char_at handle_room_join handle_room_leave to_string remove_room
    handle_received_data dispatch_type touch_host json_players player_ids dismiss first_peer
    string_to_hash
program = tt

abbrev pub wire : AnyMessage → Bytes
wire m = elim (encode 65532 m) [ none ↦ [] | some b ↦ b ]

-- The world that a run ends in.
abbrev pub world_of : Option World → World
world_of m = elim m [ none ↦ start zeros | some w ↦ w ]

abbrev pub room_code : Bytes
room_code = bytes "ABCDEF"

-- Peer 7 makes a room, and peer 8 connects.
abbrev pub opening : List Event
opening = connect 7 3 ∷ receive 7 (wire (text_message room_create room_code)) ∷ connect 8 3 ∷ []

pub opened : World
opened = world_of (run opening (start zeros))

pub opened_ran : run opening (start zeros) ≡ some opened
unfolding opened program
opened_ran = refl

-- Peer 8 joins the room of peer 7, which leaves.
abbrev pub whole_story : List Event
whole_story =
    connect 7 3
    ∷ receive 7 (wire (text_message room_create room_code))
    ∷ connect 8 3
    ∷ receive 8 (wire (text_message room_join room_code))
    ∷ disconnect 7
    ∷ []

pub finished : World
finished = world_of (run whole_story (start zeros))

pub finished_ran : run whole_story (start zeros) ≡ some finished
unfolding finished program
finished_ran = refl

-- Nine effects: the answers to the five events, and the dismissal of peer 8.
finished_effects : length (finished.effects) ≡ 9
unfolding finished program
finished_effects = refl
