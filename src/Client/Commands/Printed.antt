-- ===== src/Client/Commands/Printed.antt =====
-- ynetclient.cpp: a line for each request of the command loop.
use ynetserver_enet.Base.{
  ◌<◌, ◌^◌, ◌≡◌, refl, ◌∙◌, sym, ap, true, false, [], ◌∷◌, ◌++◌, Bytes, bytes, bytes_eq,
}
use ynetserver_enet.Base.Int.{ℤ, pos, negsuc}
use ynetserver_enet.Text.Streams.{read_word, read_int, without_space, get_line}
use ynetserver_enet.Text.Streams.Words.{
  IsLine, get_line-IsLine, IsWord, read_int_pos, read_int_negsuc, read_word_end, read_word_space,
}
use ynetserver_enet.Client.{
  Request, create_room, join_room, leave_room, send_room_message, create_room_with, join_room_with,
  join_or_create, join_or_create_random, room_password, max_players, room_private, host_migration,
  room_name, extra_info, room_info, room_list, kick_out, call_server, call_clients, call_client,
  packet_server, packet_clients, packet_client, show_bool, show_int,
}
use ynetserver_enet.Client.Commands.{ask, parse_line, command_for, with_password}

-- A command with its arguments.
unfoldable pub line_of : Request → Bytes
line_of (create_room code) = bytes "create_room " ++ code
line_of (join_room code password) = bytes "join_room " ++ code
line_of leave_room = bytes "leave_room"
line_of (send_room_message s) = bytes "send_message " ++ s
line_of (create_room_with code password) = bytes "create_room " ++ (code ++ b' ' ∷ password)
line_of (join_room_with code password) = bytes "join_room " ++ (code ++ b' ' ∷ password)
line_of (join_or_create code []) = bytes "join_or_create " ++ code
line_of (join_or_create code (c ∷ password)) =
    bytes "join_or_create " ++ (code ++ b' ' ∷ (c ∷ password))
line_of join_or_create_random = bytes "join_random"
line_of (room_password s) = bytes "set_password " ++ s
line_of (max_players z) = bytes "set_max_players " ++ show_int z
line_of (room_private b) = bytes "set_private " ++ show_bool b
line_of (host_migration b) = bytes "set_host_migration " ++ show_bool b
line_of (room_name s) = bytes "set_room_name " ++ s
line_of (extra_info s) = bytes "set_extra_info " ++ s
line_of room_info = bytes "get_room_info"
line_of room_list = bytes "get_room_list"
line_of (kick_out id) = bytes "kick_client " ++ id
line_of _ = []

-- Within `int`.
abbrev pub IsInt : ℤ → Type 0
IsInt (pos n) = n < 2 ^ 31
IsInt (negsuc n) = n < 2 ^ 31

-- The requests that can be typed: codes, passwords and ids are words, texts have no end of line,
-- numbers fit `int`.
abbrev pub IsTypable : Request → Type 0
IsTypable (create_room code) = IsWord code
IsTypable (join_room code password) = IsWord code × (password ≡ [])
IsTypable leave_room = Unit
IsTypable (send_room_message s) = IsLine s
IsTypable (create_room_with code password) = IsWord code × IsWord password
IsTypable (join_room_with code password) = IsWord code × IsWord password
IsTypable (join_or_create code []) = IsWord code
IsTypable (join_or_create code (c ∷ password)) = IsWord code × IsWord (c ∷ password)
IsTypable join_or_create_random = Unit
IsTypable (room_password s) = IsWord s
IsTypable (max_players z) = IsInt z
IsTypable (room_private b) = Unit
IsTypable (host_migration b) = Unit
IsTypable (room_name s) = IsLine s
IsTypable (extra_info s) = IsLine s
IsTypable room_info = Unit
IsTypable room_list = Unit
IsTypable (kick_out id) = IsWord id
IsTypable _ = ⊥

read_int-show_int : (before z : ℤ) → IsInt z → read_int before (b' ' ∷ show_int z) ≡ z
unfolding show_int
read_int-show_int before (pos n) h = read_int_pos before n h
read_int-show_int before (negsuc n) h = read_int_negsuc before n h

password_given :
    (plain : Bytes → Request) (protected : Bytes → Bytes → Request) (code password : Bytes)
    → IsWord code
    → IsWord password
    → with_password plain protected (b' ' ∷ (code ++ b' ' ∷ password)) ≡ protected code password
unfolding with_password
password_given plain protected code [] h k = absurd k
password_given plain protected code (c ∷ password) h k =
    rw (read_word_space code (c ∷ password) h, read_word_end (c ∷ password) k) refl

no_password :
    (plain : Bytes → Request) (protected : Bytes → Bytes → Request) (code : Bytes)
    → IsWord code
    → with_password plain protected (b' ' ∷ code) ≡ plain code
unfolding with_password read_word
no_password plain protected code h = rw (read_word_end code h) refl

-- The line of a request whose codes, passwords and ids are words without spaces, whose texts have
-- no end of line in them, and whose number fits an int, is read as that request, whatever
-- uninitialized variables hold.
pub parse_line-line_of :
    (before : ℤ) (r : Request) → IsTypable r → parse_line before (line_of r) ≡ ask r
unfolding parse_line line_of command_for read_word bytes_eq without_space get_line
parse_line-line_of before (create_room code) h =
    ap ask (no_password create_room create_room_with code h)
parse_line-line_of before (join_room code password) h = ap ask (
    no_password (λ code. join_room code []) join_room_with code h.0 ∙ ap (join_room code) (sym h.1))
parse_line-line_of before leave_room h = refl
parse_line-line_of before (send_room_message s) h =
    ap (λ t. ask (send_room_message t)) (get_line-IsLine s h)
parse_line-line_of before (create_room_with code password) h =
    ap ask (password_given create_room create_room_with code password h.0 h.1)
parse_line-line_of before (join_room_with code password) h =
    ap ask (password_given (λ code. join_room code []) join_room_with code password h.0 h.1)
parse_line-line_of before (join_or_create code []) h =
    ap ask (no_password (λ code. join_or_create code []) join_or_create code h)
parse_line-line_of before (join_or_create code (c ∷ password)) h =
    ap ask
      (password_given (λ code. join_or_create code []) join_or_create code (c ∷ password) h.0 h.1)
parse_line-line_of before join_or_create_random h = refl
parse_line-line_of before (room_password s) h = rw (read_word_end s h) refl
parse_line-line_of before (max_players z) h =
    ap (λ z. ask (max_players z)) (read_int-show_int before z h)
parse_line-line_of before (room_private true) h = refl
parse_line-line_of before (room_private false) h = refl
parse_line-line_of before (host_migration true) h = refl
parse_line-line_of before (host_migration false) h = refl
parse_line-line_of before (room_name s) h = ap (λ t. ask (room_name t)) (get_line-IsLine s h)
parse_line-line_of before (extra_info s) h = ap (λ t. ask (extra_info t)) (get_line-IsLine s h)
parse_line-line_of before room_info h = refl
parse_line-line_of before room_list h = refl
parse_line-line_of before (kick_out id) h = rw (read_word_end id h) refl
parse_line-line_of before (call_server k b) h = elim h [ ]
parse_line-line_of before (call_clients k b) h = elim h [ ]
parse_line-line_of before (call_client id k b) h = elim h [ ]
parse_line-line_of before (packet_server b) h = elim h [ ]
parse_line-line_of before (packet_clients b) h = elim h [ ]
parse_line-line_of before (packet_client id b) h = elim h [ ]
