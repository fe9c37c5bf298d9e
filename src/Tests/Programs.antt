-- ===== src/Tests/Programs.antt =====
-- The theorems on the command line, on the set-up and on the status page at concrete inputs.
use ynetserver_enet.Text.Finds.{Contains}
use ynetserver_enet.Base.{
  ◌≡◌, refl, [], ◌∷◌, ◌++◌, none, some, true, false, Bytes, bytes, bytes_eq, arith, nat_key,
  bytes_key,
}
use ynetserver_enet.Base.Dict.{lookup}
use ynetserver_enet.Hash.{string_to_hash}
use ynetserver_enet.Text.{to_string}
use ynetserver_enet.Resources.{follow, nothing}
use ynetserver_enet.Room.{Room}
use ynetserver_enet.Client.Connection.{Answers, connected}
use ynetserver_enet.Server.SetUp
use ynetserver_enet.Server.SetUp.{Released, set_up, set_up-Released}
use ynetserver_enet.Server.Status.{handle_web_request}
use ynetserver_enet.Server.Status.Lists.{handle_web_request-lists, shown_room}
use ynetserver_enet.Program.{is_value, defaults, idle, parse_args, parse_address, main}
use ynetserver_enet.Program.Arguments.{args_of, parse_args-args_of, main-uninitialized}
use ynetserver_enet.Program.Addresses.{parse_address-to_string, main-no_port}
use ynetserver_enet.Tests.Worlds.{shared}

abbrev no_web : SetUp.Answers
no_web = record { initialized = true; created = true; compressed = true; listening = false }

set_up-Released_example : Released no_web (set_up no_web)
set_up-Released_example = set_up-Released no_web

abbrev grants_all : Answers
grants_all = record { created = true; compressed = true; given = true; services = connected ∷ [] }

parse_args-args_of_example :
    parse_args (args_of true true (bytes "example.org:9000") (bytes "game")) idle defaults
    ≡ record {
      test_mode = true;
      client_mode = true;
      server_address = bytes "example.org:9000";
      protocol = string_to_hash (bytes "game");
    }
unfolding is_value
parse_args-args_of_example =
    parse_args-args_of true true (bytes "example.org:9000") (bytes "game") refl refl

parse_address-to_string_example :
    parse_address (bytes "example.org" ++ b':' ∷ to_string 9000) ≡ some (bytes "example.org", 9000)
parse_address-to_string_example =
    parse_address-to_string (bytes "example.org") 9000 (omega arith) (omega arith)

main-no_port_example :
    (main grants_all 0 no_web (bytes "--client" ∷ bytes "10.0.0.5" ∷ [])).target
    ≡ some (bytes "localhost", 7777, 0)
unfolding is_value
main-no_port_example = main-no_port grants_all 0 no_web (bytes "10.0.0.5") refl (omega arith)

main-uninitialized_example :
    follow ((main grants_all 0 no_web (bytes "--client" ∷ [])).calls) nothing ≡ none
unfolding parse_args bytes_eq
main-uninitialized_example = main-uninitialized grants_all 0 no_web (bytes "--client" ∷ []) refl

handle_web_request-lists_example :
    (page : Bytes) × (handle_web_request true (bytes "/") (some (shared.server)) ≡ some (200, page))
    × ((code : Bytes) (room : Room)
        → lookup code shared.rooms ≡ some room
        → Contains (shown_room code room) page)
handle_web_request-lists_example = handle_web_request-lists (shared.server)
