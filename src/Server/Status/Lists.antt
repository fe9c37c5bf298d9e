-- ===== src/Server/Status/Lists.antt =====
-- ynetserver.cpp: what the status page shows.
use ynetserver_enet.Text.Joined.{in_turn}
use ynetserver_enet.Text.{to_string}
use ynetserver_enet.Text.Finds.{Contains, behind}
use ynetserver_enet.Base.{
  ℕ, ◌≡◌, refl, ap, ◌∙◌, [], ◌∷◌, ◌++◌, append_assoc, some, true, Bytes, bytes, bytes_eq,
  bytes_eq_iff, nat_key, bytes_key, Bool-cases, inl, inr, arith, length, if◌then◌else◌, sym, subst,
}
use ynetserver_enet.Base.Dict.{Dict, lookup}
use ynetserver_enet.Room.{Peer, Room}
use ynetserver_enet.Server.{Server}
use ynetserver_enet.Server.Status.{
  player_line, player_lines, room_head, room_section, room_sections, page_top, generate_status_page,
  handle_web_request, page_foot,
}

-- A line for each player, in the order of the room's table.
abbrev pub shown_players : Dict Peer ℕ → Bytes
shown_players [] = []
shown_players ((p, id) ∷ members) =
    bytes "            <p class='player'>Player: "
    ++ (to_string id ++ (bytes "</p>\n" ++ shown_players members))

-- The section of a room.
abbrev pub shown_room : Bytes → Room → Bytes
shown_room code room =
    in_turn (
      bytes "    <div class='room'>\n        <h3>Room: "
      ∷ code
      ∷ bytes "</h3>\n        <p>Protocol: "
      ∷ to_string room.protocol
      ∷ bytes "</p>\n        <p>Players: "
      ∷ to_string (length room.clients)
      ∷ bytes "/"
      ∷ to_string room.max_players
      ∷ bytes "</p>\n        <p>Status: "
      ∷ (if room.is_private then bytes "Private" else bytes "Public")
      ∷ bytes "</p>\n        <div class='players'>\n"
      ∷ [])
    ++ (shown_players room.clients ++ bytes "        </div>\n    </div>\n")

regroup : (a s b r t : Bytes) → (a ++ (s ++ b)) ++ (r ++ t) ≡ (a ++ (s ++ (b ++ r))) ++ t
regroup a s b r t =
    append_assoc a (s ++ b) (r ++ t)
    ∙ (ap (λ u. a ++ u) (append_assoc s b (r ++ t))
        ∙ (ap (λ u. a ++ (s ++ u)) (sym (append_assoc b r t))
            ∙ (ap (λ u. a ++ u) (sym (append_assoc s (b ++ r) t))
                ∙ sym (append_assoc a (s ++ (b ++ r)) t))))

player_lines-shown :
    (members : Dict Peer ℕ) (rest : Bytes)
    → player_lines members rest ≡ shown_players members ++ rest
unfolding player_lines player_line
player_lines-shown [] rest = refl
player_lines-shown ((p, id) ∷ members) rest =
    ap (λ u. player_line id ++ u) (player_lines-shown members rest)
    ∙ regroup (bytes "            <p class='player'>Player: ") (to_string id) (bytes "</p>\n")
        (shown_players members) rest

room_section-shown : (code : Bytes) (room : Room) → room_section code room ≡ shown_room code room
unfolding room_section room_head
room_section-shown code room =
    ap (λ u. room_head code room ++ u)
      (player_lines-shown room.clients (bytes "        </div>\n    </div>\n"))

room_sections-Contains :
    (code : Bytes) (room : Room) (rooms : Dict Bytes Room) (rest : Bytes)
    → lookup code rooms ≡ some room
    → Contains (room_section code room) (room_sections rooms rest)
unfolding room_sections lookup
room_sections-Contains code room [] rest h = absurd (ground arith)
room_sections-Contains code room ((c, r) ∷ rooms) rest h = elim (Bool-cases (bytes_eq c code)) [
  | inl same ↦
      let ec : c ≡ code = (bytes_eq_iff c code).0 same in
      let er : r ≡ room = ground arith in
      (
        [],
        room_sections rooms rest,
        ap (λ k. room_section k r ++ room_sections rooms rest) ec
            ∙ ap (λ x. room_section code x ++ room_sections rooms rest) er,
      )
  | inr other ↦
      behind (room_section c r) (room_section code room) (room_sections rooms rest)
        (room_sections-Contains code room rooms rest (ground arith))
]

generate_status_page-Contains :
    (s : Server) (code : Bytes) (room : Room)
    → lookup code s.rooms ≡ some room
    → Contains (room_section code room) (generate_status_page s)
unfolding generate_status_page
generate_status_page-Contains s code room h =
    behind (page_top s) (room_section code room) (room_sections s.rooms page_foot)
      (room_sections-Contains code room s.rooms page_foot h)

-- A request for / is answered with status 200 and a page that has the section of each room of the
-- server in it, which shows code, protocol, number of players, limit, whether the room is private,
-- and then the id of each of its players on a line of its own.
pub handle_web_request-lists :
    (s : Server)
    → (page : Bytes) × (handle_web_request true (bytes "/") (some s) ≡ some (200, page))
      × ((code : Bytes) (room : Room)
          → lookup code s.rooms ≡ some room
          → Contains (shown_room code room) page)
unfolding handle_web_request bytes_eq
handle_web_request-lists s = (
  generate_status_page s,
  refl,
  λ code room h.
      subst (λ part. Contains part (generate_status_page s)) (room_section-shown code room)
        (generate_status_page-Contains s code room h),
)
