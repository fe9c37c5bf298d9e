-- ===== src/Tests/Undone.antt =====
-- Operations that undo each other, at the world with one room: peer 9 connects and disconnects, and
-- peer 8 makes a room, or joins that of peer 7, and leaves it.
use ynetserver_enet.Server.Send.{reliable}
use ynetserver_enet.Text.{to_string}
use ynetserver_enet.Message.{text_message, player_left}
use ynetserver_enet.Server.Relay.Delivery.{deliver, others}
use ynetserver_enet.Server.Leave.Guests.{left, handle_room_leave-left}
use ynetserver_enet.Tests.Worlds.{member, shared, the_room, room_there}
use ynetserver_enet.Base.{◌≡◌, refl, some, Bytes, bytes, bytes_key, nat_key, arith, [], ℕ}
use ynetserver_enet.Base.Dict.{lookup, erase}
use ynetserver_enet.Stream.LittleEndian.{little_endian_laws}
use ynetserver_enet.Server.{World}
use ynetserver_enet.Server.Create.{new_room, hashed, handle_room_creation}
use ynetserver_enet.Server.Join.{handle_room_join}
use ynetserver_enet.Server.Join.Admission.{Admits}
use ynetserver_enet.Server.Leave.{handle_room_leave}
use ynetserver_enet.Server.Run.{connect, disconnect, step}
use ynetserver_enet.Server.Invariant.{Inv}
use ynetserver_enet.Server.Invariant.Runs.{run-Inv}
use ynetserver_enet.Server.Undo.{SameTables}
use ynetserver_enet.Server.Undo.Connections.{disconnect-connect}
use ynetserver_enet.Server.Undo.Creations.{in_room, handle_room_leave-handle_room_creation}
use ynetserver_enet.Server.Undo.Joins.{handle_room_leave-handle_room_join}
use ynetserver_enet.Tests.{stream, no_json, zeros, program, room_code, opening, opened, opened_ran}
use ynetserver_enet.Tests.Liveness.{guest, only_room}

opened-Inv : Inv opened.server
opened-Inv = run-Inv zeros opening opened opened_ran

disconnect-connect_example :
    (w₁ w₂ : World) × (step (connect 9 3) opened ≡ some w₁)
    × (step (disconnect 9) w₁ ≡ some w₂)
    × SameTables opened.server w₂.server
unfolding opened program
disconnect-connect_example =
    disconnect-connect little_endian_laws 9 3 opened opened-Inv 5000 (omega arith) (omega arith)
      refl refl

abbrev pub other_code : Bytes
other_code = bytes "ABCDEA"

handle_room_leave-handle_room_creation_example :
    (id : ℕ) × (w₁ w₂ : World) × (handle_room_creation guest 8 other_code (bytes "pw") opened
      ≡ some w₁)
    × (lookup 8 w₁.clients ≡ some (in_room other_code id guest))
    × (handle_room_leave (in_room other_code id guest) 8 w₁ ≡ some w₂)
    × SameTables opened.server w₂.server
unfolding opened program
handle_room_leave-handle_room_creation_example =
    handle_room_leave-handle_room_creation little_endian_laws guest 8 other_code (bytes "pw") opened
      5000 opened-Inv (omega arith) refl refl refl refl refl refl

handle_room_leave-handle_room_join_example :
    (w₁ w₂ : World) × (handle_room_join guest 8 room_code [] opened ≡ some w₁)
    × (lookup 8 w₁.clients ≡ some (in_room room_code 1000 guest))
    × (handle_room_leave (in_room room_code 1000 guest) 8 w₁ ≡ some w₂)
    × SameTables opened.server w₂.server
unfolding opened program new_room hashed
handle_room_leave-handle_room_join_example =
    let admits : Admits guest [] only_room = record {
      same_protocol = refl;
      same_password = refl;
      not_private = refl;
      has_space = omega arith;
    } in
    handle_room_leave-handle_room_join little_endian_laws guest 8 room_code [] only_room opened
      opened-Inv refl admits (omega arith) (omega arith, tt) refl refl refl refl

-- Peer 8 leaves the room that peer 7 hosts.
handle_room_leave-left_example :
    handle_room_leave member 8 shared
    ≡ some (
        deliver
          (text_message player_left (to_string 1001))
          reliable
          0
          (others 0 shared.clients (erase 8 the_room.clients))
          (left member 8 the_room shared))
handle_room_leave-left_example =
    handle_room_leave-left little_endian_laws member 8 the_room shared room_there (λ e. omega arith)
      (omega arith)
