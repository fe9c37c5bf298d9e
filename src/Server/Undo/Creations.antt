-- ===== src/Server/Undo/Creations.antt =====
-- ynetserver.cpp: `handleRoomCreation` and `handleRoomLeave`, one after the other.
use ynetserver_enet.Base.{
  ℕ, ◌<◌, ◌≡◌, ◌∙◌, refl, ap, [], ◌∷◌, none, some, true, false, Bytes, nat_key, bytes_key,
  bytes_eq_iff, arith, ◌==◌,
}
use ynetserver_enet.Base.Dict.{
  lookup, has, insert, assign, erase, contains, include, lookup-insert, lookup-assign, lookup-erase,
  contains-include, contains-exclude,
}
use ynetserver_enet.Stream.{Stream, Laws}
use ynetserver_enet.Message.{confirm_room_creation, text_message}
use ynetserver_enet.Room.{Peer, Room, Client}
use ynetserver_enet.Room.Code.{is_valid_room_code}
use ynetserver_enet.Server.{World, sends, emit, set_client, set_room}
use ynetserver_enet.Server.Create.{
  new_room, add_room, create_checked, final_room_code, handle_room_creation,
}
use ynetserver_enet.Server.Ids.{next_room, release_room_id}
use ynetserver_enet.Server.Ids.Search.{generate_room_id-total, generate_room_id-unused}
use ynetserver_enet.Server.Invariant.{Inv}
use ynetserver_enet.Server.Leave.{
  forget_room, without_peer, first_peer, remove_room, leave_as_host, leave_room, handle_room_leave,
}
use ynetserver_enet.Server.Send.{reliable}
use ynetserver_enet.Server.Yields.{send_text-fits}
use ynetserver_enet.Room.Code.Valid.{valid_length}
use ynetserver_enet.Server.Undo.{SameTables}

abbrev pub in_room : Bytes → ℕ → Client → Client
in_room code id client = record client { current_room = code; room_id = id }

-- The world with the new room.
abbrev created : Client → Peer → Bytes → Bytes → ℕ → World → World
created client peer code password id w =
    emit (sends peer 0 reliable (text_message confirm_room_creation code)) (
      set_client peer (in_room code id client) (record w {
        server = record (w.server) {
          used_room_ids = include id w.used_room_ids;
          next_room_id = next_room id;
          rooms = insert code (new_room id code client peer password) w.rooms;
        };
      }))

-- The world after a host has left its room that has no other member.
abbrev emptied : Peer → Client → Bytes → Room → World → World
emptied peer client code room w =
    set_client peer (forget_room client)
      (remove_room code room.room_id (set_room code (without_peer peer room) w))

module _ ⦃io : Stream⦄ (laws : Laws io) (client : Client) (peer : Peer) (code password : Bytes)
    (w : World) (valid : is_valid_room_code code ≡ true) (absent : lookup code w.rooms ≡ none) where
  creates :
      (free : ℕ)
      → w.next_room_id < 65536
      → free < 65536
      → contains free w.used_room_ids ≡ false
      → (id : ℕ) × (contains id w.used_room_ids ≡ false)
        × (create_checked client peer code password w
            ≡ some (created client peer code password id w))
  unfolding create_checked add_room
  creates free next below unused =
      let (id, s, e) = generate_room_id-total w.server free next below unused in
      let (fresh, small, same) = generate_room_id-unused w.server s id next e in
      let missing : has code w.rooms ≡ false = ground arith in
      (
        id,
        fresh,
        rw (valid, missing, e ∙ ap (λ t. some (id, t)) same)
            (send_text-fits laws peer confirm_room_creation code _
              (omega (arith, valid_length code valid))),
      )

handle_room_leave-emptied :
    ⦃io : Stream⦄ (client : Client) (peer : Peer) (room : Room) (w : World)
    → lookup client.current_room w.rooms ≡ some room
    → room.host ≡ peer
    → erase peer room.clients ≡ []
    → handle_room_leave client peer w ≡ some (emptied peer client client.current_room room w)
unfolding handle_room_leave leave_room leave_as_host without_peer first_peer
handle_room_leave-emptied client peer room w here hosts alone =
    let host : (room.host == peer) ≡ true = ground arith in
    rw (here, handle_room_leave) (rw host (rw (alone, first_peer) refl))

module _ (client : Client) (peer : Peer) (code password : Bytes) (id : ℕ) (w : World)
    (absent : lookup code w.rooms ≡ none) (known : lookup peer w.clients ≡ some client) where
  abbrev own_room : Room
  own_room = new_room id code client peer password

  created-here :
      (lookup code (created client peer code password id w).rooms ≡ some own_room)
      × (lookup peer (created client peer code password id w).clients
          ≡ some (in_room code id client))
  unfolding emit set_client
  created-here = (
    ground (arith, lookup-insert code code own_room w.rooms, bytes_eq_iff code code),
    ground (arith, lookup-assign peer peer (in_room code id client) client w.clients known),
  )

  emptied-SameTables :
      client.current_room ≡ []
      → client.room_id ≡ 0
      → contains id w.used_room_ids ≡ false
      → SameTables w.server
          (emptied peer
            (in_room code id client)
            code
            own_room
            (created client peer code password id w)).server
  unfolding emit set_client set_room remove_room release_room_id forget_room new_room
  emptied-SameTables nowhere no_id fresh =
      let (here, aware) = created-here in
      let same : forget_room client ≡ client = ground arith in
      record {
        clients = λ p. ground (
          arith,
          same,
          lookup-assign peer p (forget_room client) (in_room code id client)
              (assign peer (in_room code id client) w.clients) aware,
          lookup-assign peer p (in_room code id client) client w.clients known,
        );
        rooms = λ c.
            let all = insert code own_room w.rooms in
            ground (
              arith,
              lookup-erase code c (assign code (without_peer peer own_room) all),
              lookup-assign code c (without_peer peer own_room) own_room all here,
              lookup-insert code c own_room w.rooms,
              bytes_eq_iff code c,
            );
        client_ids = λ k. refl;
        room_ids = λ k. ground (
          arith,
          contains-exclude id k (include id w.used_room_ids),
          contains-include id k w.used_room_ids,
        );
      }

handle_room_creation-named :
    ⦃io : Stream⦄ (client : Client) (peer : Peer) (code password : Bytes) (w : World)
    → is_valid_room_code code ≡ true
    → handle_room_creation client peer code password w ≡ create_checked client peer code password w
unfolding handle_room_creation final_room_code is_valid_room_code
handle_room_creation-named client peer [] password w valid = absurd (ground arith)
handle_room_creation-named client peer (c ∷ code) password w valid = refl

-- On streams that keep their laws, in a state that satisfies the invariant, where a room id is
-- free, a known client that is in no room can create a room under a valid code that is free and
-- then leave it; in between it knows the room; and afterwards the server has the same clients,
-- rooms and used ids as before.
pub handle_room_leave-handle_room_creation :
    ⦃io : Stream⦄ (laws : Laws io) (client : Client) (peer : Peer) (code password : Bytes)
    (w : World) (free : ℕ)
    → Inv w.server
    → free < 65536
    → contains free w.used_room_ids ≡ false
    → is_valid_room_code code ≡ true
    → lookup code w.rooms ≡ none
    → lookup peer w.clients ≡ some client
    → client.current_room ≡ []
    → client.room_id ≡ 0
    → (id : ℕ) × (w₁ w₂ : World) × (handle_room_creation client peer code password w ≡ some w₁)
      × (lookup peer w₁.clients ≡ some (in_room code id client))
      × (handle_room_leave (in_room code id client) peer w₁ ≡ some w₂)
      × SameTables w.server w₂.server
unfolding erase new_room
handle_room_leave-handle_room_creation laws client peer code password w free inv below unused valid
      absent known nowhere no_id =
    let (id, fresh, ran) =
      creates laws client peer code password w valid absent free inv.next_room below unused in
    let (here, aware) = created-here client peer code password id w absent known in
    let alone : erase peer ((peer, client.id) ∷ []) ≡ [] = ground arith in
    (
      id,
      created client peer code password id w,
      _,
      handle_room_creation-named client peer code password w valid ∙ ran,
      aware,
      handle_room_leave-emptied (in_room code id client) peer
          (own_room client peer code password id w absent known)
          (created client peer code password id w) here refl alone,
      emptied-SameTables client peer code password id w absent known nowhere no_id fresh,
    )
