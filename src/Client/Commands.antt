-- ===== src/Client/Commands.antt =====
-- ynetclient.cpp: `YNetClient::run`, the commands that the user types.
pub mod Printed
pub mod Sessions
use ynetserver_enet.Base.{
  ℕ, List, [], ◌∷◌, ◌++◌, Option, none, some, Bool, Bytes, bytes, bytes_eq, is_empty, ◌>>=◌,
  if◌then◌else◌,
}
use ynetserver_enet.Base.Int.{ℤ}
use ynetserver_enet.Stream.{Stream}
use ynetserver_enet.Text.Streams.{read_word, read_int, without_space, get_line}
use ynetserver_enet.Client.{
  YNetClient, Request, create_room, join_room, leave_room, send_room_message, create_room_with,
  join_room_with, join_or_create, join_or_create_random, room_password, max_players, room_private,
  host_migration, room_name, extra_info, room_info, room_list, kick_out, request, on_receive,
  on_disconnected,
}

-- What a line asks for.
pub data Command : Type 0 where
  quit : Command
  unknown : Command
  ask : Request → Command

-- `iss >> roomCode; if (iss >> password)`.
unfoldable pub with_password : (Bytes → Request) → (Bytes → Bytes → Request) → Bytes → Request
unfolding read_word
with_password plain protected s =
    let (code, r) = read_word s in
    let (password, r') = read_word r in
    if is_empty password then plain code else protected code password

-- The chain of tests on the first word; `s` is the rest of the line, and `before` what the
-- uninitialized `maxPlayers` holds.
unfoldable pub command_for : ℤ → Bytes → Bytes → Command
unfolding with_password read_word read_int without_space get_line
command_for before cmd s =
    if bytes_eq cmd (bytes "quit")
    then quit
    else if bytes_eq cmd (bytes "create_room")
    then ask (with_password create_room create_room_with s)
    else if bytes_eq cmd (bytes "join_room")
    then ask (with_password (λ code. join_room code []) join_room_with s)
    else if bytes_eq cmd (bytes "join_or_create")
    then ask (with_password (λ code. join_or_create code []) join_or_create s)
    else if bytes_eq cmd (bytes "join_random")
    then ask join_or_create_random
    else if bytes_eq cmd (bytes "leave_room")
    then ask leave_room
    else if bytes_eq cmd (bytes "send_message")
    then ask (send_room_message (without_space (get_line s)))
    else if bytes_eq cmd (bytes "set_password")
    then ask (room_password ((read_word s).0))
    else if bytes_eq cmd (bytes "set_max_players")
    then ask (max_players (read_int before s))
    else if bytes_eq cmd (bytes "set_private")
    then ask (room_private (bytes_eq ((read_word s).0) (bytes "true")))
    else if bytes_eq cmd (bytes "set_host_migration")
    then ask (host_migration (bytes_eq ((read_word s).0) (bytes "true")))
    else if bytes_eq cmd (bytes "set_room_name")
    then ask (room_name (without_space (get_line s)))
    else if bytes_eq cmd (bytes "set_extra_info")
    then ask (extra_info (without_space (get_line s)))
    else if bytes_eq cmd (bytes "get_room_info")
    then ask room_info
    else if bytes_eq cmd (bytes "get_room_list")
    then ask room_list
    else if bytes_eq cmd (bytes "kick_client")
    then ask (kick_out ((read_word s).0))
    else unknown

-- The body of the loop on one line, up to the call of the request function.
unfoldable pub parse_line : ℤ → Bytes → Command
unfolding command_for read_word
parse_line before line = let (cmd, s) = read_word line in command_for before cmd s

-- What happens to a running client, in order: a typed line, as `std::getline` gives it,
-- with what ENet says to a packet that it
-- sends and what uninitialized variables hold; a packet from the server; a disconnection.
pub data Turn : Type 0 where
  types : Bytes → Bool → ℕ → ℤ → Turn
  hears : Bytes → Turn
  loses : Turn

module _ ⦃io : Stream⦄ where
  -- Requests after a line, and whether the loop goes on.
  unfoldable pub obey : Command → Bool → ℕ → YNetClient → Option (YNetClient × List Bytes)
  obey (ask r) accepted stale c = do
    (sent, c', packets) ← request accepted stale r c
    some (c', packets)
  obey _ accepted stale c = some (c, [])

  -- A command, and what `rest` does after it unless it is `quit`.
  unfoldable pub turn :
      Command
      → Bool
      → ℕ
      → YNetClient
      → (YNetClient → Option (YNetClient × List Bytes))
      → Option (YNetClient × List Bytes)
  unfolding obey
  turn quit accepted stale c rest = some (c, [])
  turn command accepted stale c rest = do
    (c', packets) ← obey command accepted stale c
    (c'', more) ← rest c'
    some (c'', packets ++ more)

  -- The loop over the lines, with the message thread in between: the client at the end and the
  -- packets that went to ENet, oldest first. After `quit` nothing more is read.
  unfoldable pub run : List Turn → YNetClient → Option (YNetClient × List Bytes)
  unfolding turn parse_line
  run [] c = some (c, [])
  run (hears b ∷ turns) c = do c' ← on_receive b c; run turns c'
  run (loses ∷ turns) c = run turns (on_disconnected c)
  run (types line accepted stale before ∷ turns) c =
      turn (parse_line before line) accepted stale c (λ c'. run turns c')
