-- ===== src/Tests/Servers.antt =====
-- The theorems on the server at concrete worlds.
use ynetserver_enet.Tests.Worlds.{
  host, guest, the_room, shared, member, room_there, migrating_room, migrating,
  migrating_room_there,
}
use ynetserver_enet.Server.Leave.Migration.{handed_over, handle_room_leave-migrates}
use ynetserver_enet.Server.Leave.Returns.{handle_kick_client-kicks, handle_room_leave-returns}
use ynetserver_enet.Server.Join.Admission.Random.{Suits, handle_room_join-random}
use ynetserver_enet.Base.{
  ◌≡◌, ◌≢◌, ◌⊎◌, refl, [], ◌∷◌, none, some, true, false, bytes, bytes_key, nat_key, arith, Bytes,
  ◌++◌,
}
use ynetserver_enet.Base.Dict.{lookup, has, contains, erase}
use ynetserver_enet.Stream.LittleEndian.{little_endian_laws}
use ynetserver_enet.Message.{text_message, message}
use ynetserver_enet.Room.{Peer, Room}
use ynetserver_enet.Server.{World, get_client_for_peer, sends}
use ynetserver_enet.Server.Send.{reliable}
use ynetserver_enet.Server.Invariant.{Inv}
use ynetserver_enet.Server.Invariant.Runs.{run-Inv}
use ynetserver_enet.Server.Join.{handle_room_join}
use ynetserver_enet.Server.Join.Admission.{Admits, Member, handle_room_join-admission}
use ynetserver_enet.Server.Create.{handle_room_creation}
use ynetserver_enet.Server.Create.Outcome.{Created, handle_room_creation-outcome}
use ynetserver_enet.Server.Leave.{handle_room_leave, handle_kick_client, first_peer}
use ynetserver_enet.Server.Leave.Members.{IsFirst}
use ynetserver_enet.Server.Leave.Clearing.{Roomless}
use ynetserver_enet.Server.Leave.Closing.{handle_room_leave-closes}
use ynetserver_enet.Tests.{
  stream, no_json, zeros, program, world_of, room_code, opening, opened, opened_ran, whole_story,
  finished, finished_ran,
}

run-Inv_example : Inv finished.server
run-Inv_example = run-Inv zeros whole_story finished finished_ran

handle_room_leave-closes_example :
    (w' : World) × (handle_room_leave host 7 shared ≡ some w')
    × (lookup room_code w'.rooms ≡ none)
    × (contains 1000 w'.used_room_ids ≡ false)
    × ((q : Peer) → q ≢ 0 → has q the_room.clients ≡ true → Roomless q w'.server)
handle_room_leave-closes_example =
    handle_room_leave-closes little_endian_laws host 7 the_room shared (omega arith) room_there refl
      refl

guest_next : first_peer (erase 7 migrating_room.clients) ≡ some 8
unfolding first_peer erase
guest_next = refl

handle_room_leave-migrates_example :
    (w' : World) × (handle_room_leave host 7 migrating ≡ some w')
    × (lookup room_code w'.rooms ≡ some (handed_over 7 8 migrating_room))
    × (w'.effects
        ≡ migrating.effects
          ++ sends 8 0 reliable (text_message message (bytes "New host assigned")) ∷ [])
handle_room_leave-migrates_example =
    handle_room_leave-migrates little_endian_laws host 7 8 migrating_room
      (record guest { current_room = room_code; room_id = 1000 }) migrating migrating_room_there
      refl refl guest_next (unfold lookup in refl)

abbrev joined : World
joined = world_of (handle_room_join guest 8 room_code [] opened)

joined_ran : handle_room_join guest 8 room_code [] opened ≡ some joined
unfolding opened program
joined_ran = refl

guest_known : lookup 8 opened.clients ≡ some guest
unfolding opened program
guest_known = refl

handle_room_join-admission_example :
    (joined.server ≡ opened.server)
    ⊎ ((room : Room) × (lookup room_code opened.rooms ≡ some room)
        × Admits guest [] room
        × Member guest 8 room_code room joined.server)
handle_room_join-admission_example =
    handle_room_join-admission guest 8 room_code [] opened joined refl
      (run-Inv zeros opening opened opened_ran) guest_known joined_ran

abbrev second : World
second = world_of (handle_room_creation guest 8 (bytes "TTTTTT") (bytes "secret") shared)

second_ran : handle_room_creation guest 8 (bytes "TTTTTT") (bytes "secret") shared ≡ some second
unfolding program
second_ran = refl

handle_room_creation-outcome_example :
    (second.server ≡ shared.server) ⊎ Created guest 8 (bytes "secret") shared.server second.server
handle_room_creation-outcome_example =
    handle_room_creation-outcome guest 8 (bytes "TTTTTT") (bytes "secret") shared second
      (omega arith) second_ran

abbrev picked : World
picked = world_of (handle_room_join guest 8 [] [] opened)

picked_ran : handle_room_join guest 8 [] [] opened ≡ some picked
unfolding opened program
picked_ran = refl

handle_room_join-random_example :
    (picked.server ≡ opened.server)
    ⊎ ((code : Bytes) × (room : Room) × (lookup code opened.rooms ≡ some room)
        × Suits guest [] room
        × Member guest 8 code room picked.server)
handle_room_join-random_example =
    handle_room_join-random guest 8 [] opened picked (run-Inv zeros opening opened opened_ran)
      guest_known picked_ran

handle_room_leave-returns_example :
    (w' : World) × (handle_room_leave host 7 shared ≡ some w') × Roomless 7 w'.server
handle_room_leave-returns_example =
    handle_room_leave-returns little_endian_laws host 7 shared (omega arith)

found : IsFirst 1001 8 the_room.clients
found = record { before = []; after = (7, 1000) ∷ []; split = refl; none_before = tt }

member_known : get_client_for_peer 8 shared ≡ some member
unfolding program
member_known = refl

handle_kick_client-kicks_example :
    (w' : World) × (handle_kick_client host 7 1001 shared ≡ some w') × Roomless 8 w'.server
handle_kick_client-kicks_example =
    handle_kick_client-kicks little_endian_laws host 7 1001 the_room 8 member shared room_there refl
      found member_known (omega arith)
