-- ===== src/Server/Status.antt =====
-- ynetserver.cpp: `handleWebRequest` and `generateStatusPage`.
pub mod Lists
use ynetserver_enet.Base.{
  ℕ, List, [], ◌∷◌, ◌++◌, Option, none, some, Bool, true, false, ◌&&◌, Bytes, bytes, bytes_eq,
  length, if◌then◌else◌, nat_key, bytes_key,
}
use ynetserver_enet.Base.Dict.{Dict}
use ynetserver_enet.Text.{to_string}
use ynetserver_enet.Room.{Peer, Room}
use ynetserver_enet.Server.{Server}

abbrev pub page_head : Bytes
page_head =
    bytes "<!DOCTYPE html>\n<html>\n<head>\n    <title>YNet Server Status</title>\n    <style>\n"
    ++ (bytes "        body { font-family: Arial, sans-serif; margin: 20px; }\n"
        ++ (bytes "        .room { border: 1px solid #ccc; padding: 10px; margin: 10px 0; }\n"
            ++ (bytes "        .player { color: #666; }\n    </style>\n</head>\n<body>\n"
                ++ bytes "    <h1>YNet Server Status</h1>\n")))

abbrev pub page_foot : Bytes
page_foot =
    bytes
      "    <script>\n        setTimeout(function() { location.reload(); }, 5000);\n    </script>\n"
    ++ bytes "</body>\n</html>"

unfoldable pub player_line : ℕ → Bytes
player_line id = bytes "            <p class='player'>Player: " ++ (to_string id ++ bytes "</p>\n")

-- The players of a room, before `rest`.
unfoldable pub player_lines : Dict Peer ℕ → Bytes → Bytes
unfolding player_line
player_lines [] rest = rest
player_lines ((p, id) ∷ members) rest = player_line id ++ player_lines members rest

unfoldable pub room_head : Bytes → Room → Bytes
room_head code room =
    bytes "    <div class='room'>\n        <h3>Room: "
    ++ (code
        ++ (bytes "</h3>\n        <p>Protocol: "
            ++ (to_string room.protocol
                ++ (bytes "</p>\n        <p>Players: "
                    ++ (to_string (length room.clients)
                        ++ (bytes "/"
                            ++ (to_string room.max_players
                                ++ (bytes "</p>\n        <p>Status: "
                                    ++ ((if room.is_private
                                          then bytes "Private"
                                          else bytes "Public")
                                        ++ bytes "</p>\n        <div class='players'>\n")))))))))

unfoldable pub room_section : Bytes → Room → Bytes
unfolding room_head player_lines
room_section code room =
    room_head code room ++ player_lines room.clients (bytes "        </div>\n    </div>\n")

unfoldable pub room_sections : Dict Bytes Room → Bytes → Bytes
unfolding room_section
room_sections [] rest = rest
room_sections ((code, room) ∷ rooms) rest = room_section code room ++ room_sections rooms rest

unfoldable pub page_top : Server → Bytes
page_top s =
    page_head
    ++ (bytes "    <p>Total Rooms: "
        ++ (to_string (length s.rooms)
            ++ (bytes "</p>\n    <p>Total Players: "
                ++ (to_string (length s.clients) ++ bytes "</p>\n    <h2>Active Rooms</h2>\n"))))

unfoldable pub generate_status_page : Server → Bytes
unfolding room_sections page_top
generate_status_page s = page_top s ++ room_sections s.rooms page_foot

-- Status and body of the answer to an event of mongoose, if there is one. `is_message` says that it
-- is a whole HTTP request, `server` what the connection carries.
unfoldable pub handle_web_request : Bool → Bytes → Option Server → Option (ℕ × Bytes)
unfolding generate_status_page
handle_web_request is_message uri server =
    if is_message && bytes_eq uri (bytes "/")
    then elim server [
      | none ↦ some (500, bytes "Internal Server Error")
      | some s ↦ some (200, generate_status_page s)
    ]
    else none
