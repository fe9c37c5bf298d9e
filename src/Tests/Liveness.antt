-- ===== src/Tests/Liveness.antt =====
-- An event that is served: peer 8 joins the room of peer 7.
use ynetserver_enet.Base.{
  ◌≡◌, refl, subst, some, Bytes, bytes_key, bytes_eq, nat_key, arith, inl, inr, Bool-cases, [], ◌∷◌,
  false,
}
use ynetserver_enet.Base.Dict.{lookup}
use ynetserver_enet.Stream.LittleEndian.{little_endian_laws}
use ynetserver_enet.Message.{text_message, room_join}
use ynetserver_enet.Room.{Room, Client}
use ynetserver_enet.Server.{World}
use ynetserver_enet.Server.Info.{room_info_json}
use ynetserver_enet.Server.Create.{new_room, hashed}
use ynetserver_enet.Server.Run.{Event, receive, step}
use ynetserver_enet.Server.Invariant.Runs.{run-Inv}
use ynetserver_enet.Server.Liveness.{Live, SmallRoom, Serviceable}
use ynetserver_enet.Server.Liveness.Served.{step-returns}
use ynetserver_enet.Tests.{
  stream, no_json, zeros, program, wire, room_code, opening, opened, opened_ran,
}

abbrev joins : Event
joins = receive 8 (wire (text_message room_join room_code))

abbrev host : Client
host = record { id = 1000; current_room = []; room_id = 0; protocol_version = 3; debugging = false }

abbrev pub guest : Client
guest = record {
  id = 1001;
  current_room = [];
  room_id = 0;
  protocol_version = 3;
  debugging = false;
}

abbrev pub only_room : Room
only_room = new_room 1000 room_code host 7 []

opened_rooms : opened.rooms ≡ (room_code, only_room) ∷ []
unfolding opened program
opened_rooms = refl

pub only_room-SmallRoom : SmallRoom only_room
unfolding new_room hashed room_info_json program
only_room-SmallRoom = record { few = omega arith; ids = (omega arith, tt); info = omega arith }

opened-small : (code : Bytes) (r : Room) → lookup code opened.rooms ≡ some r → SmallRoom r
unfolding lookup
opened-small code r h =
    let here : lookup code ((room_code, only_room) ∷ []) ≡ some r = rw opened_rooms at h in
    elim (Bool-cases (bytes_eq room_code code)) [
      | inl e ↦ let same : only_room ≡ r = ground arith in subst SmallRoom same only_room-SmallRoom
      | inr e ↦ absurd (ground arith)
    ]

opened-Live : Live opened.server
unfolding opened program
opened-Live = record {
  inv = run-Inv zeros opening opened opened_ran;
  room_id = 1;
  in_range = omega arith;
  unused = refl;
  small = opened-small;
}

joins-Serviceable : Serviceable joins opened.server
unfolding opened program
joins-Serviceable =
    (guest, text_message room_join room_code, refl, refl, omega arith, λ e. absurd (ground arith))

step-returns_example : (w' : World) × (step joins opened ≡ some w')
step-returns_example = step-returns little_endian_laws joins opened opened-Live joins-Serviceable
