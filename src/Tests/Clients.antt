-- ===== src/Tests/Clients.antt =====
-- The theorems on the client at concrete requests.
use ynetserver_enet.Base.{◌≡◌, refl, [], ◌∷◌, List, some, true, Bytes, bytes, arith}
use ynetserver_enet.Stream.LittleEndian.{little_endian_laws}
use ynetserver_enet.Message.{rpc, text_message, error}
use ynetserver_enet.Message.Wire.{encode}
use ynetserver_enet.Room.{Peer, Client}
use ynetserver_enet.Server.{World}
use ynetserver_enet.Server.Dispatch.{handle_received_data}
use ynetserver_enet.Client.{
  YNetClient, Request, join_room, call_server, message_of, request, on_receive,
}
use ynetserver_enet.Client.Requests.{handler_of, request-handled}
use ynetserver_enet.Client.Stale.{join_room-stale}
use ynetserver_enet.Tests.{stream, no_json}

abbrev call : Request
call = call_server 7 (1 ∷ 2 ∷ 3 ∷ [])

call_message : message_of 0 call ≡ some (rpc 4 7 (1 ∷ 2 ∷ 3 ∷ []))
unfolding message_of
call_message = refl

request-handled_example :
    (b : Bytes) × (encode 4096 (rpc 4 7 (1 ∷ 2 ∷ 3 ∷ [])) ≡ some b)
    × ((c : Client) (p : Peer) (w : World) → handle_received_data c p b w ≡ handler_of call c p b w)
request-handled_example =
    request-handled little_endian_laws 0 call (rpc 4 7 (1 ∷ 2 ∷ 3 ∷ [])) call_message
      (omega arith, (omega arith, (omega arith, (tt, tt)))) (omega arith)

abbrev outside : YNetClient
outside = record { is_connected = true; current_room = []; current_room_id = 0 }

abbrev inside : YNetClient
inside = record outside { current_room = bytes "ABCDEF" }

join_room-stale_example :
    (packets : List Bytes) × (b : Bytes) × (request true 0
        (join_room (bytes "ABCDEF") (bytes "x"))
        outside
      ≡ some (true, inside, packets))
    × (encode 65532 (text_message error (bytes "Room not found")) ≡ some b)
    × (on_receive b inside ≡ some inside)
join_room-stale_example =
    join_room-stale little_endian_laws 0 (bytes "ABCDEF") (bytes "x") (bytes "Room not found")
      outside refl
      (
        omega arith,
        (omega arith, (omega arith, (tt, (tt, (omega arith, (omega arith, (tt, (tt, tt)))))))),
      )
      (omega arith) (omega arith)
