-- ===== src/Server/Directory/Enters.antt =====
-- ynetserver.cpp: creations and joins as steps of the directory.
use ynetserver_enet.Base.{
  ◌<◌, ◌≡◌, refl, sym, subst, [], ◌∷◌, some, true, false, Bytes, bytes_eq_iff, bytes_key, nat_key,
  inl, inr, arith, if◌then◌else◌, length,
}
use ynetserver_enet.Base.Dict.{Dict, lookup, has, put, lookup-put}
use ynetserver_enet.Stream.{Stream}
use ynetserver_enet.Room.{Peer, Room, Client}
use ynetserver_enet.Room.Code.{generate_room_code}
use ynetserver_enet.Server.{Server, World, set_room, set_client}
use ynetserver_enet.Server.Create.{handle_room_creation, create_checked, final_room_code}
use ynetserver_enet.Server.Create.Outcome.{Created, create_checked-Outcome}
use ynetserver_enet.Server.Create.Outcome
use ynetserver_enet.Server.Join.{
  join_random, join_named, handle_room_join, handle_join_or_create_room,
  handle_join_or_create_room_random, first_open,
}
use ynetserver_enet.Server.Join.Admission.{
  admitted, after_entry, Entered, Admits, join_named-Outcome, touch_host-hosted, length-put,
}
use ynetserver_enet.Server.Join.Admission
use ynetserver_enet.Server.Join.Admission.Random.{Picked, join_random-Picked}
use ynetserver_enet.Server.Ends.{Ends, Ends-if, Ends-case, Ends-weaken}
use ynetserver_enet.Server.Invariant.{Inv, Inv-hosted}
use ynetserver_enet.Server.Directory.{Protocols, seat, OneMore, opens, enters, Refines}
use ynetserver_enet.Server.Directory.Writes.{
  Now, Now-Becomes, start-Now, set_room-Now, set_client-Now,
}

-- A server whose rooms are those of another.
pub Refines-same : (speaks : Protocols) (rooms : Dict Bytes Room) → Refines speaks rooms rooms
unfolding Refines
Refines-same speaks rooms = inl (λ c. refl)

Created-Refines :
    (speaks : Protocols) (client : Client) (peer : Peer) (password : Bytes) (s s' : Server)
    → speaks peer ≡ some client.protocol_version
    → Created client peer password s s'
    → Refines speaks s.rooms s'.rooms
unfolding Refines
Created-Refines speaks client peer password s s' known c =
    let now : Now s.rooms c.code (some c.room) s' = record {
      here = c.present;
      elsewhere = λ k n. c.others k (λ e. absurd (ground (arith, bytes_eq_iff c.code k)));
    } in
    inr (
      opens c.code peer client.id (seat c.room) (rw c.absent refl) c.valid c.hosted
        (λ q. rw c.alone (unfold lookup in refl)) (rw c.alone refl) (rw c.spoken known)
        (Now-Becomes now))

module _ ⦃io : Stream⦄ (speaks : Protocols) (client : Client) (peer : Peer)
    (known : speaks peer ≡ some client.protocol_version) where
  create_checked-Refines :
      (code password : Bytes) (w : World)
      → w.next_room_id < 65536
      → Ends (λ s. Refines speaks w.rooms s.rooms) (create_checked client peer code password w)
  create_checked-Refines code password w below =
      Ends-weaken _ (λ s. Refines speaks w.rooms s.rooms) _ weaken
        (create_checked-Outcome client peer password code w below)
    where
      weaken :
          (s : Server) → Outcome.Outcome client peer password w s → Refines speaks w.rooms s.rooms
      weaken s o =
          unfold Outcome.Outcome in
          elim o [
            | inl same ↦ rw same (Refines-same speaks w.rooms)
            | inr c ↦ Created-Refines speaks client peer password w.server s known c
          ]

  pub handle_room_creation-Refines :
      (room_code password : Bytes) (w : World)
      → w.next_room_id < 65536
      → Ends
          (λ s. Refines speaks w.rooms s.rooms)
          (handle_room_creation client peer room_code password w)
  unfolding handle_room_creation
  handle_room_creation-Refines [] password w below =
      create_checked-Refines (generate_room_code w.random).0 password _ below
  handle_room_creation-Refines (c ∷ code) password w below =
      create_checked-Refines (c ∷ code) password w below

-- The peer is in a room that is public, of the protocol, and has space.
entry-Refines :
    (speaks : Protocols) (client : Client) (peer : Peer) (code : Bytes) (room : Room) (w : World)
    → speaks peer ≡ some client.protocol_version
    → has room.host room.clients ≡ true
    → lookup code w.rooms ≡ some room
    → room.is_private ≡ false
    → room.protocol ≡ client.protocol_version
    → length room.clients < room.max_players
    → Refines speaks w.rooms (after_entry client peer code room w).rooms
unfolding Refines after_entry admitted lookup set_room
entry-Refines speaks client peer code room w known hosted here open_ protocol space =
    let r : Room = record room { clients = put peer client.id room.clients } in
    let still : has r.host r.clients ≡ true =
      ground (arith, lookup-put peer room.host client.id room.clients) in
    let w₁ : World =
      set_client peer (record client { current_room = code; room_id = room.room_id }) w in
    let now₁ =
      set_client-Now peer (record client { current_room = code; room_id = room.room_id }) w
        (start-Now code (some room) w.server here) in
    let now = set_room-Now room r w₁ now₁ in
    let more : OneMore peer client.id (seat room) (seat r) = record {
      same_host = refl;
      joined = λ q. lookup-put peer q client.id room.clients;
      bounded = omega (arith, length-put peer client.id room.clients, space);
      same_limit = refl;
      same_protocol = refl;
      same_privacy = refl;
      same_migration = refl;
    } in
    rw (touch_host-hosted r still) (
      inr (
        enters code peer client.id (seat room) (seat r) (rw here refl) open_ (rw protocol known)
          space more (Now-Becomes now)))

module _ ⦃io : Stream⦄ (speaks : Protocols) (client : Client) (peer : Peer)
    (known : speaks peer ≡ some client.protocol_version) (w : World) (inv : Inv w.server) where
  abbrev P : Server → Type 0
  P s = Refines speaks w.rooms s.rooms

  entered :
      (code : Bytes) (room : Room) (s : Server)
      → lookup code w.rooms ≡ some room
      → room.is_private ≡ false
      → room.protocol ≡ client.protocol_version
      → length room.clients < room.max_players
      → s ≡ after_entry client peer code room w
      → Refines speaks w.rooms s.rooms
  entered code room s here open_ protocol space after =
      subst (λ (t : Server). Refines speaks w.rooms t.rooms) (sym after)
        (entry-Refines speaks client peer code room w known (Inv-hosted code room inv here) here
          open_ protocol space)

  join_named-Refines : (code password : Bytes) → Ends P (join_named client peer code password w)
  join_named-Refines code password =
      Ends-weaken _ P _ weaken (join_named-Outcome client peer code password w)
    where
      weaken :
          (s : Server)
          → Admission.Outcome client peer code password w s
          → Refines speaks w.rooms s.rooms
      weaken s o =
          unfold Admission.Outcome Entered in
          elim o [
            | inl same ↦ rw same (Refines-same speaks w.rooms)
            | inr (room, here, a, after) ↦
                entered code room s here a.not_private a.same_protocol a.has_space after
          ]

  join_random-Refines : (password : Bytes) → Ends P (join_random client peer password w)
  join_random-Refines password =
      Ends-weaken _ P _ weaken (join_random-Picked client peer password w inv.rooms.distinct)
    where
      weaken : (s : Server) → Picked client peer password w s → Refines speaks w.rooms s.rooms
      weaken s o =
          unfold Picked in
          elim o [
            | inl same ↦ rw same (Refines-same speaks w.rooms)
            | inr (code, room, here, a, after) ↦
                entered code room s here a.not_private a.same_protocol a.has_space after
          ]

  pub handle_room_join-Refines :
      (code password : Bytes) → Ends P (handle_room_join client peer code password w)
  unfolding handle_room_join
  handle_room_join-Refines [] password = join_random-Refines password
  handle_room_join-Refines (c ∷ code) password = join_named-Refines (c ∷ code) password

module _ ⦃io : Stream⦄ (speaks : Protocols) (client : Client) (peer : Peer)
    (known : speaks peer ≡ some client.protocol_version) (w : World) (inv : Inv w.server) where
  join_or_create :
      (code password : Bytes) (w' : World)
      → w'.server ≡ w.server
      → Ends
          (λ s. Refines speaks w'.rooms s.rooms)
          (if has code w'.rooms
            then handle_room_join client peer code password w'
            else handle_room_creation client peer code password w')
  join_or_create code password w' same =
      let inv' : Inv w'.server = subst Inv (sym same) inv in
      Ends-if (λ s. Refines speaks w'.rooms s.rooms) (has code w'.rooms) _ _
        (λ _. handle_room_join-Refines speaks client peer known w' inv' code password)
        (λ _. handle_room_creation-Refines speaks client peer known code password w' inv'.next_room)

  pub handle_join_or_create_room-Refines :
      (room_code password : Bytes)
      → Ends
          (λ s. Refines speaks w.rooms s.rooms)
          (handle_join_or_create_room client peer room_code password w)
  unfolding handle_join_or_create_room final_room_code
  handle_join_or_create_room-Refines [] password =
      join_or_create (generate_room_code w.random).0 password
        (record w { random = (generate_room_code w.random).1 }) refl
  handle_join_or_create_room-Refines (c ∷ code) password = join_or_create (c ∷ code) password w refl

  pub handle_join_or_create_room_random-Refines :
      Ends (λ s. Refines speaks w.rooms s.rooms) (handle_join_or_create_room_random client peer w)
  unfolding handle_join_or_create_room_random
  handle_join_or_create_room_random-Refines =
      let P : Server → Type 0 = λ s. Refines speaks w.rooms s.rooms in
      Ends-case P (first_open client.protocol_version w.rooms) _ _
        (λ _.
          handle_room_creation-Refines speaks client peer known (generate_room_code w.random).0 []
            (record w { random = (generate_room_code w.random).1 }) inv.next_room)
        (λ code _. handle_room_join-Refines speaks client peer known w inv code [])
