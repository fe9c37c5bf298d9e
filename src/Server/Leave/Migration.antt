-- ===== src/Server/Leave/Migration.antt =====
-- ynetserver.cpp: what `handleRoomLeave` does when the host of a room with host migration leaves it.
use ynetserver_enet.Base.{
  if-cases, ℕ, ◌≡◌, refl, ◌∙◌, [], ◌∷◌, ◌++◌, some, true, not, Bytes, bytes, nat_key, bytes_key,
  bytes_eq_iff, arith, ◌==◌,
}
use ynetserver_enet.Base.Dict.{lookup, erase, assign, lookup-assign}
use ynetserver_enet.Stream.{Stream, Laws}
use ynetserver_enet.Message.{message, text_message}
use ynetserver_enet.Room.{Peer, Room, Client}
use ynetserver_enet.Server.{World, sends, emit, set_client, set_room, get_client_for_peer}
use ynetserver_enet.Server.Send.{reliable}
use ynetserver_enet.Server.Leave.{
  close_room, forget_room, without_peer, first_peer, migrate_host, leave_as_host, leave_room,
  handle_room_leave,
}
use ynetserver_enet.Server.Yields.{send_text-fits}

-- The room without its old host, under a new one.
abbrev pub handed_over : Peer → Peer → Room → Room
handed_over old new room = record room { host = new; clients = erase old room.clients }

-- The state after the two writes to the room.
abbrev written : Peer → Peer → Bytes → Room → World → World
written old new code room w =
    set_room code (handed_over old new room) (set_room code (without_peer old room) w)

abbrev news : Peer → World → World
news new w = emit (sends new 0 reliable (text_message message (bytes "New host assigned"))) w

written-rooms :
    (old new : Peer) (code : Bytes) (room : Room) (w : World)
    → lookup code w.rooms ≡ some room
    → lookup code (written old new code room w).rooms ≡ some (handed_over old new room)
unfolding set_room
written-rooms old new code room w here =
    let before : lookup code (assign code (without_peer old room) w.rooms)
        ≡ some (without_peer old room) =
      ground (
        arith,
        lookup-assign code code (without_peer old room) room w.rooms here,
        bytes_eq_iff code code,
      ) in
    ground (
      arith,
      lookup-assign code code (handed_over old new room) (without_peer old room)
          (assign code (without_peer old room) w.rooms) before,
      bytes_eq_iff code code,
    )

module _ ⦃io : Stream⦄ (laws : Laws io) where
  leave_as_host-migrate_host :
      (id : ℕ) (code : Bytes) (room : Room) (new : Peer) (w : World)
      → room.can_host_migrate ≡ true
      → first_peer room.clients ≡ some new
      → leave_as_host id code room w ≡ migrate_host code room new w
  unfolding leave_as_host
  leave_as_host-migrate_host id code room new w migrates first =
      rw (first, leave_as_host)
        (if-cases (λ m. m ≡ migrate_host code room new w) (not room.can_host_migrate)
          (close_room id code room w) (migrate_host code room new w) (λ e. absurd (ground arith))
          (λ e. refl))

  leave_room-handed_over :
      (id : ℕ) (old new : Peer) (code : Bytes) (room : Room) (c : Client) (w : World)
      → room.host ≡ old
      → room.can_host_migrate ≡ true
      → first_peer (erase old room.clients) ≡ some new
      → lookup new w.clients ≡ some c
      → leave_room id old code room w ≡ some (news new (written old new code room w))
  unfolding leave_room leave_as_host migrate_host without_peer get_client_for_peer set_room
  leave_room-handed_over id old new code room c w host migrates first known =
      let hosts : (room.host == old) ≡ true = ground arith in
      rw hosts (
        leave_as_host-migrate_host id code (without_peer old room) new
          (set_room code (without_peer old room) w) migrates first
        ∙ rw (known, migrate_host)
            (send_text-fits laws new message (bytes "New host assigned")
              (written old new code room w) (omega arith)))

  -- On streams that keep their laws, when the host of a room with host migration leaves it, the
  -- room has another member, and the first of those in iteration order is a peer whose client the
  -- server knows, the handler returns; the room is still there, without the old host, with that
  -- peer as its host and all else as it was; and the only effect is the text message that tells
  -- the new host.
  pub handle_room_leave-migrates :
      (client : Client) (old new : Peer) (room : Room) (c : Client) (w : World)
      → lookup client.current_room w.rooms ≡ some room
      → room.host ≡ old
      → room.can_host_migrate ≡ true
      → first_peer (erase old room.clients) ≡ some new
      → lookup new w.clients ≡ some c
      → (w' : World) × (handle_room_leave client old w ≡ some w')
        × (lookup client.current_room w'.rooms ≡ some (handed_over old new room))
        × (w'.effects
            ≡ w.effects
              ++ sends new 0 reliable (text_message message (bytes "New host assigned")) ∷ [])
  unfolding handle_room_leave
  handle_room_leave-migrates client old new room c w here host migrates first known =
      let code : Bytes = client.current_room in
      let left = leave_room-handed_over client.id old new code room c w host migrates first known in
      (
        set_client old (forget_room client) (news new (written old new code room w)),
        rw (here, handle_room_leave) (rw left refl),
        unfold set_client emit in written-rooms old new code room w here,
        unfold set_client emit set_room in refl,
      )
