-- ===== src/Server/Create.antt =====
-- ynetserver.cpp: `handleRoomCreation`.
pub mod Outcome
use ynetserver_enet.Base.{
  ℕ, [], ◌∷◌, Option, false, not, Bytes, bytes, is_empty, bytes_key, ◌>>=◌, if◌then◌else◌,
}
use ynetserver_enet.Base.Dict.{has, insert}
use ynetserver_enet.Stream.{Stream}
use ynetserver_enet.Message.{confirm_room_creation}
use ynetserver_enet.Hash.{string_to_hash}
use ynetserver_enet.Room.{Peer, Room, Client}
use ynetserver_enet.Room.Code.{is_valid_room_code, generate_room_code}
use ynetserver_enet.Server.{World, set_client}
use ynetserver_enet.Server.Ids.{generate_room_id}
use ynetserver_enet.Server.Send.{send_text, send_error}

-- `password.empty() ? 0 : stringToHash(password)`
unfoldable pub hashed : Bytes → ℕ
hashed password = if is_empty password then 0 else string_to_hash password

unfoldable pub new_room : ℕ → Bytes → Client → Peer → Bytes → Room
unfolding hashed
new_room room_id code client peer password = record {
  room_id = room_id;
  room_code = code;
  protocol = client.protocol_version;
  room_name = [];
  password = password;
  hashed_password = hashed password;
  is_private = false;
  can_host_migrate = false;
  max_players = 4;
  extra_info = [];
  host = peer;
  clients = (peer, client.id) ∷ [];
}

-- The code that the client sent, or a random one if that is empty.
unfoldable pub final_room_code : Bytes → World → Bytes × World
final_room_code code w =
    let (random_code, r) = generate_room_code w.random in
    if is_empty code then (random_code, record w { random = r }) else (code, w)

module _ ⦃io : Stream⦄ where
  -- The part behind the checks.
  unfoldable pub add_room : Client → Peer → Bytes → Bytes → World → Option World
  add_room client peer code password w = do
    (room_id, s) ← generate_room_id w.server
    let room = new_room room_id code client peer password
    let w₁ = record w { server = record s { rooms = insert code room s.rooms } }
    let w₂ = set_client peer (record client { current_room = code; room_id = room_id }) w₁
    send_text peer confirm_room_creation code w₂

  unfoldable pub create_checked : Client → Peer → Bytes → Bytes → World → Option World
  create_checked client peer code password w =
      if not (is_valid_room_code code)
      then send_error peer (bytes "Invalid room code format") w
      else if has code w.rooms
      then send_error peer (bytes "Room already exists") w
      else add_room client peer code password w

  unfoldable pub handle_room_creation : Client → Peer → Bytes → Bytes → World → Option World
  unfolding final_room_code create_checked add_room
  handle_room_creation client peer room_code password w =
      let (code, w') = final_room_code room_code w in create_checked client peer code password w'
