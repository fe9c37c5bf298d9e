-- ===== src/Tests/Parts.antt =====
-- The theorems on messages, ids, pages, codes and texts at concrete inputs.
use ynetserver_enet.Base.{◌≡◌, ◌<◌, refl, [], ◌∷◌, some, none, true, false, Bytes, bytes, arith}
use ynetserver_enet.Base.Dict.{contains, include}
use ynetserver_enet.Stream.LittleEndian.{little_endian_laws}
use ynetserver_enet.Message.{AnyMessage, rpc}
use ynetserver_enet.Message.Wire.{encode}
use ynetserver_enet.Message.Parse.{deserialize, shape_for, rpcs}
use ynetserver_enet.Message.RoundTrip.{encode-deserialize}
use ynetserver_enet.Room.Code.{is_valid_room_code, generate_room_code}
use ynetserver_enet.Room.Code.Valid.{generate_room_code-valid}
use ynetserver_enet.Server.{Server, start}
use ynetserver_enet.Server.Ids.{generate_room_id, generate_client_id, next_room}
use ynetserver_enet.Server.Ids.Search.{generate_room_id-unused}
use ynetserver_enet.Server.Send.{send_rpc_message}
use ynetserver_enet.Server.Relay.{forwarded_rpc}
use ynetserver_enet.Server.Relay.Delivery.{send_rpc_message-overflow}
use ynetserver_enet.Room.{Client}
use ynetserver_enet.Tests.{stream, no_json, zeros, program}

abbrev client : Client
client = record {
  id = 1000;
  current_room = [];
  room_id = 0;
  protocol_version = 3;
  debugging = false;
}

abbrev call : AnyMessage
call = rpc 5 7 (1 ∷ 2 ∷ 3 ∷ [])

rpcs_known : shape_for 5 ≡ some rpcs
unfolding program
rpcs_known = refl

encode-deserialize_example : (b : Bytes) × (encode 40 call ≡ some b) × (deserialize b ≡ some call)
encode-deserialize_example =
    encode-deserialize little_endian_laws 40 call rpcs
      (omega arith, (omega arith, (omega arith, (tt, tt)))) (omega arith) refl rpcs_known

-- 34 bytes of data.
abbrev too_long : Bytes
too_long = bytes "abcdefghijklmnopqrstuvwxyzabcdefgh"

send_rpc_message-overflow_example :
    send_rpc_message 7 (forwarded_rpc 5 too_long) (start zeros) ≡ none
send_rpc_message-overflow_example =
    send_rpc_message-overflow little_endian_laws client 7 7 5 too_long (start zeros) (omega arith)
      (omega arith) (omega arith)

generate_room_code-valid_example : is_valid_room_code (generate_room_code zeros).0 ≡ true
generate_room_code-valid_example = generate_room_code-valid zeros

abbrev state : Server
state = record ((start zeros).server) { used_room_ids = 1000 ∷ []; used_client_ids = 1000 ∷ [] }

abbrev room_taken : Server
room_taken = record state { used_room_ids = 1001 ∷ 1000 ∷ []; next_room_id = 1002 }

abbrev client_taken : Server
client_taken = record state { used_client_ids = 1001 ∷ 1000 ∷ []; next_client_id = 1002 }

takes_room : generate_room_id state ≡ some (1001, room_taken)
unfolding program
takes_room = refl

takes_client : generate_client_id state ≡ some (1001, client_taken)
unfolding program
takes_client = refl

generate_room_id-unused_example :
    (contains 1001 state.used_room_ids ≡ false)
    × (1001 < 65536)
    × (room_taken ≡ record state {
      used_room_ids = include 1001 state.used_room_ids;
      next_room_id = next_room 1001;
    })
generate_room_id-unused_example =
    generate_room_id-unused state room_taken 1001 (omega arith) takes_room
