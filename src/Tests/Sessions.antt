-- ===== src/Tests/Sessions.antt =====
-- The theorems on the client's command loop and on its connection at concrete inputs.
use ynetserver_enet.Base.{◌≡◌, refl, [], ◌∷◌, ◌++◌, some, true, false, Bytes, bytes, arith}
use ynetserver_enet.Base.Int.{negsuc, pos}
use ynetserver_enet.Message.{join_with_password, code_of, join_room_with_password}
use ynetserver_enet.Resources.{follow}
use ynetserver_enet.Room.{Peer, Client}
use ynetserver_enet.Server.{World}
use ynetserver_enet.Server.Dispatch.{handle_received_data}
use ynetserver_enet.Stream.LittleEndian.{little_endian_laws}
use ynetserver_enet.Text.{to_string, is_space}
use ynetserver_enet.Client.{show_int, message_of, YNetClient, max_players, join_room_with}
use ynetserver_enet.Client.Requests.{handler_of}
use ynetserver_enet.Client.Commands.{types, run, parse_line, ask}
use ynetserver_enet.Client.Commands.Printed.{line_of, parse_line-line_of}
use ynetserver_enet.Client.Commands.Sessions.{Moved, typed-handled}
use ynetserver_enet.Client.Connection.{
  fresh, Answers, connect, disconnect, quiet, connected, disconnected,
}
use ynetserver_enet.Client.Connection.Lifetime.{
  Connects, ready, connect-Connects, connect-disconnect,
}
use ynetserver_enet.Tests.{stream, no_json, room_code}

parse_line-line_of_example :
    parse_line (pos 7) (line_of (max_players (negsuc 4))) ≡ ask (max_players (negsuc 4))
parse_line-line_of_example = parse_line-line_of (pos 7) (max_players (negsuc 4)) (omega arith)

-- The line itself.
typed_limit : line_of (max_players (negsuc 4)) ≡ bytes "set_max_players -5"
unfolding line_of show_int to_string
typed_limit = refl

abbrev offline : YNetClient
offline = record { is_connected = false; current_room = []; current_room_id = 0 }

abbrev online : YNetClient
online = record offline { is_connected = true }

typed-handled_example :
    (c' : YNetClient) × (b : Bytes) × (run
        (types (line_of (join_room_with room_code (bytes "pw"))) true 0 (pos 0) ∷ [])
        online
      ≡ some (c', b ∷ []))
    × Moved (join_room_with room_code (bytes "pw")) online c'
    × ((client : Client) (p : Peer) (w : World)
        → handle_received_data client p b w
          ≡ handler_of (join_room_with room_code (bytes "pw")) client p b w)
typed-handled_example =
    typed-handled little_endian_laws 0 (pos 0) (join_room_with room_code (bytes "pw")) online
      (join_with_password (code_of join_room_with_password) room_code (bytes "pw"))
      (
        (unfold is_space in (refl, (refl, (refl, (refl, (refl, (refl, tt))))))),
        (unfold is_space in (refl, (refl, tt))),
      )
      (unfold message_of in refl)
      (
        omega arith,
        (omega arith, (omega arith, (tt, (tt, (omega arith, (omega arith, (tt, (tt, tt)))))))),
      )
      (omega arith) tt refl

abbrev granted : Answers
granted = record {
  created = true;
  compressed = true;
  given = true;
  services = quiet ∷ connected ∷ [];
}

connect-Connects_example : Connects granted (connect granted 3 fresh)
connect-Connects_example = connect-Connects granted 3

connect-disconnect_example :
    (follow ((connect granted 3 fresh).2 ++ (disconnect 2 ((connect granted 3 fresh).1)).1) ready
      ≡ some ready)
    × ((disconnect 2 ((connect granted 3 fresh).1)).0 ≡ fresh)
connect-disconnect_example = connect-disconnect granted 3 2

-- A refusal of the server within the five attempts.
refused :
    (connect (record granted { services = quiet ∷ disconnected ∷ connected ∷ [] }) 3 fresh).0
    ≡ false
unfolding connect
refused = refl
