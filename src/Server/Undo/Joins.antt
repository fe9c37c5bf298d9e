-- ===== src/Server/Undo/Joins.antt =====
-- ynetserver.cpp: `handleRoomJoin` and `handleRoomLeave`, one after the other.
use ynetserver_enet.Server.Relay.Delivery.{deliver}
use ynetserver_enet.Server.Leave.Guests.{left, handle_room_leave-left}
use ynetserver_enet.Base.{
  ℕ, ◌≤◌, ◌≡◌, ◌≢◌, ◌∙◌, refl, sym, ap, subst, [], ◌∷◌, none, some, true, false, Bytes, length,
  nat_key, bytes_key, bytes_eq, bytes_eq_iff, is_empty, arith, ◌==◌, inl, inr, Bool-cases,
}
use ynetserver_enet.Base.Dict.{Dict, lookup, has, put, erase, lookup-put, lookup-assign}
use ynetserver_enet.Stream.{Stream, Laws}
use ynetserver_enet.Room.{Peer, Room, Client}
use ynetserver_enet.Room.Code.{is_valid_room_code}
use ynetserver_enet.Room.Code.Valid.{valid_length}
use ynetserver_enet.Server.{Server, World, set_client, set_room}
use ynetserver_enet.Server.Ends.{Ends-result}
use ynetserver_enet.Server.Join.{at_capacity, enter_room, join_found, join_named, handle_room_join}
use ynetserver_enet.Server.Join.Admission.{
  Admits, admitted, after_entry, enter_room-Ends, touch_host-hosted,
}
use ynetserver_enet.Server.Invariant.{Inv, Inv-hosted}
use ynetserver_enet.Server.Leave.{forget_room, without_peer, handle_room_leave}
use ynetserver_enet.Server.Liveness.{SmallIds}
use ynetserver_enet.Server.Liveness.Enters.{enter_room-Returns}
use ynetserver_enet.Server.Undo.{SameTables}
use ynetserver_enet.Server.Undo.Creations.{in_room}

erase-absent :
    (p : Peer) (members : Dict Peer ℕ) → lookup p members ≡ none → erase p members ≡ members
unfolding lookup erase
erase-absent p [] h = refl
erase-absent p ((q, id) ∷ members) h = elim (Bool-cases (q == p)) [
  | inl same ↦ absurd (ground arith)
  | inr other ↦ ground (arith, erase-absent p members)
]

erase-put :
    (p id : ℕ) (members : Dict Peer ℕ)
    → lookup p members ≡ none
    → erase p (put p id members) ≡ members
unfolding put
erase-put p id members h = rw (h, put) (unfold erase in ground (arith, erase-absent p members))

module _ ⦃io : Stream⦄ (client : Client) (peer : Peer) (code password : Bytes) (room : Room)
    (w : World) (here : lookup code w.rooms ≡ some room) where
  handle_room_join-enter_room :
      is_valid_room_code code ≡ true
      → Admits client password room
      → handle_room_join client peer code password w ≡ enter_room client peer code room w
  unfolding handle_room_join join_named join_found is_valid_room_code
  handle_room_join-enter_room valid admits =
      let named : is_empty code ≡ false = ground arith in
      let protocol : (room.protocol == client.protocol_version) ≡ true =
        ground (arith, admits.same_protocol) in
      let same : bytes_eq room.password password ≡ true =
        ground (arith, bytes_eq_iff room.password password, admits.same_password) in
      let space : at_capacity room ≡ false = ground (arith, admits.has_space) in
      rw named (rw (here, join_named) (rw (protocol, same, admits.not_private, space) refl))

  module _ (known : lookup peer w.clients ≡ some client) (new : lookup peer room.clients ≡ none)
      (hosted : has room.host room.clients ≡ true) where
    abbrev larger : Room
    larger = record room { clients = put peer client.id room.clients }

    abbrev entered : Server
    entered = after_entry client peer code room w

    larger-here :
        (lookup code entered.rooms ≡ some larger)
        × (lookup peer entered.clients ≡ some (in_room code room.room_id client))
    unfolding after_entry admitted set_room set_client
    larger-here =
        let still : has room.host larger.clients ≡ true =
          ground (arith, lookup-put peer room.host client.id room.clients) in
        (
          rw (touch_host-hosted larger still) (
              ground
                (arith, lookup-assign code code larger room w.rooms here, bytes_eq_iff code code)),
          ground (
            arith,
            lookup-assign peer peer (in_room code room.room_id client) client w.clients known,
          ),
        )

    left-SameTables :
        (v : World)
        → client.current_room ≡ []
        → client.room_id ≡ 0
        → SameTables w.server
            (left
              (in_room code room.room_id client)
              peer
              larger
              (record v { server = entered })).server
    unfolding after_entry admitted set_room set_client forget_room without_peer
    left-SameTables v nowhere no_id =
        let (there, aware) = larger-here in
        let same : forget_room client ≡ client = ground arith in
        let back : without_peer peer larger ≡ room =
          ap (λ m. record room { clients = m }) (erase-put peer client.id room.clients new) in
        record {
          clients = λ p. ground (
            arith,
            same,
            lookup-assign peer p (forget_room client) (in_room code room.room_id client)
                entered.clients aware,
            lookup-assign peer p (in_room code room.room_id client) client w.clients known,
          );
          rooms = λ c. ground (
            arith,
            back,
            lookup-assign code c (without_peer peer larger) larger entered.rooms there,
            lookup-assign code c (admitted client peer room) room w.rooms here,
            bytes_eq_iff code c,
          );
          client_ids = λ k. refl;
          room_ids = λ k. refl;
        }

    entered-SameTables :
        (v : World)
        → v.server ≡ entered
        → client.current_room ≡ []
        → client.room_id ≡ 0
        → SameTables w.server (left (in_room code room.room_id client) peer larger v).server
    entered-SameTables v after nowhere no_id =
        let inside : Client = in_room code room.room_id client in
        subst
          (λ (s : Server).
            SameTables w.server (left inside peer larger (record v { server = s })).server)
          (sym after) (left-SameTables v nowhere no_id)

-- On streams that keep their laws, in a state that satisfies the invariant, a known client that is
-- in no room, passes the checks of a room and is not yet a member of it can join the room and then
-- leave it, if the room has at most 4000 members, under 16-bit ids; in between it knows the room;
-- and afterwards the server has the same clients, rooms and used ids as before.
pub handle_room_leave-handle_room_join :
    ⦃io : Stream⦄ (laws : Laws io) (client : Client) (peer : Peer) (code password : Bytes)
    (room : Room) (w : World)
    → Inv w.server
    → lookup code w.rooms ≡ some room
    → Admits client password room
    → length room.clients ≤ 4000
    → SmallIds room.clients
    → lookup peer room.clients ≡ none
    → lookup peer w.clients ≡ some client
    → client.current_room ≡ []
    → client.room_id ≡ 0
    → let inside : Client = in_room code room.room_id client in
      (w₁ w₂ : World) × (handle_room_join client peer code password w ≡ some w₁)
      × (lookup peer w₁.clients ≡ some inside)
      × (handle_room_leave inside peer w₁ ≡ some w₂)
      × SameTables w.server w₂.server
unfolding deliver
handle_room_leave-handle_room_join laws client peer code password room w inv here admits few ids new
      known nowhere no_id =
    let valid = inv.rooms.valid code room here in
    let hosted = Inv-hosted code room inv here in
    let small : client.id ≤ 65535 = (inv.clients.id_range peer client known).1 in
    let y =
      enter_room-Returns laws client peer code room w small (valid_length code valid) hosted few
        ids in
    let joined = handle_room_join-enter_room client peer code password room w here valid admits in
    let after = Ends-result _ _ y.world (enter_room-Ends client peer code room w) y.returns in
    let inside : Client = in_room code room.room_id client in
    let r : Room = larger client peer code password room w here known new hosted in
    let (there, aware) = larger-here client peer code password room w here known new hosted in
    let there' : lookup code y.world.rooms ≡ some r = rw after there in
    let aware' : lookup peer y.world.clients ≡ some inside = rw after aware in
    let guest : room.host ≢ peer = λ e. absurd (ground arith) in
    let ran = handle_room_leave-left laws inside peer r y.world there' guest (omega arith) in
    (
      y.world,
      _,
      joined ∙ y.returns,
      aware',
      ran,
      entered-SameTables client peer code password room w here known new hosted y.world after
          nowhere no_id,
    )
