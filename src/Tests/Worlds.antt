-- ===== src/Tests/Worlds.antt =====
-- The worlds of the tests on the server.
use ynetserver_enet.Base.{◌≡◌, refl, [], ◌∷◌, some, true, false, bytes_key, nat_key, bytes_eq}
use ynetserver_enet.Base.Dict.{lookup}
use ynetserver_enet.Room.{Room, Client}
use ynetserver_enet.Server.{World, start}
use ynetserver_enet.Tests.{stream, no_json, zeros, room_code}

abbrev pub host : Client
host = record {
  id = 1000;
  current_room = room_code;
  room_id = 1000;
  protocol_version = 3;
  debugging = false;
}

abbrev pub guest : Client
guest = record {
  id = 1001;
  current_room = [];
  room_id = 0;
  protocol_version = 3;
  debugging = false;
}

abbrev pub the_room : Room
the_room = record {
  room_id = 1000;
  room_code = room_code;
  protocol = 3;
  room_name = [];
  password = [];
  hashed_password = 0;
  is_private = false;
  can_host_migrate = false;
  max_players = 4;
  extra_info = [];
  host = 7;
  clients = (8, 1001) ∷ (7, 1000) ∷ [];
}

-- A room of the host and the guest.
abbrev pub shared : World
shared = record (start zeros) {
  server = record ((start zeros).server) {
    clients = (7, host) ∷ (8, record guest { current_room = room_code; room_id = 1000 }) ∷ [];
    rooms = (room_code, the_room) ∷ [];
    used_room_ids = 1000 ∷ [];
    used_client_ids = 1000 ∷ 1001 ∷ [];
  };
}

-- The guest as a member of the room.
abbrev pub member : Client
member = record guest { current_room = room_code; room_id = 1000 }

pub room_there : lookup room_code shared.rooms ≡ some the_room
unfolding lookup bytes_eq
room_there = refl

-- The same room, with host migration.
abbrev pub migrating_room : Room
migrating_room = record the_room { can_host_migrate = true }

abbrev pub migrating : World
migrating = record shared {
  server = record (shared.server) { rooms = (room_code, migrating_room) ∷ [] };
}

pub migrating_room_there : lookup room_code migrating.rooms ≡ some migrating_room
unfolding lookup bytes_eq
migrating_room_there = refl
