-- ===== src/Server/Join/Admission.antt =====
-- ynetserver.cpp: whom `handleRoomJoin` lets into a room that it is given the code of.
pub mod Random
use ynetserver_enet.Base.{
  ℕ, ◌+◌, ◌≤◌, ◌<◌, ◌≡◌, ◌⊎◌, refl, sym, [], ◌∷◌, some, true, false, not, Bytes, nat_key, bytes_key,
  bytes_eq, bytes_eq_iff, is_empty, length, inl, inr, arith, Option-cases, ◌==◌, subst,
}
use ynetserver_enet.Base.Dict.{Dict, lookup, has, put, assign, lookup-put, lookup-assign}
use ynetserver_enet.Stream.{Stream}
use ynetserver_enet.Room.{Peer, Room, Client}
use ynetserver_enet.Server.{Server, World, set_client, set_room}
use ynetserver_enet.Server.Ends.{
  Ends, Ends-bind, Ends-if, Ends-case, Ends-result, Ends-send_message, Ends-send_text,
  Ends-send_error, Ends-for_each, Ends-weaken,
}
use ynetserver_enet.Server.Join.{
  touch_host, enter_room, join_found, join_named, handle_room_join, at_capacity,
}
use ynetserver_enet.Server.Invariant.{Inv, Inv-hosted}

length-assign :
    (p : Peer) (id : ℕ) (members : Dict Peer ℕ) → length (assign p id members) ≡ length members
unfolding assign
length-assign p id [] = refl
length-assign p id ((q, i) ∷ members) = ground (arith, length-assign p id members)

pub length-put :
    (p : Peer) (id : ℕ) (members : Dict Peer ℕ) → length (put p id members) ≤ length members + 1
unfolding put
length-put p id members = elim (Option-cases (lookup p members)) [
  | inl n ↦ rw (n, put) (omega arith)
  | inr (i, e) ↦ rw (e, put) (omega (arith, length-assign p id members))
]

-- The room with the peer in it.
unfoldable pub admitted : Client → Peer → Room → Room
unfolding touch_host
admitted client peer room = touch_host (record room { clients = put peer client.id room.clients })

-- The server with the peer in the room.
unfoldable pub after_entry : Client → Peer → Bytes → Room → World → Server
unfolding admitted
after_entry client peer code room w =
    (set_room code (admitted client peer room)
      (set_client peer (record client { current_room = code; room_id = room.room_id }) w)).server

-- The checks that a peer passes on its way into a room.
pub record Admits (client : Client) (password : Bytes) (room : Room) : Type 0 where
  pub same_protocol : room.protocol ≡ client.protocol_version
  pub same_password : room.password ≡ password
  pub not_private : room.is_private ≡ false
  pub has_space : length room.clients < room.max_players

unfoldable pub Entered : Client → Peer → Bytes → Bytes → World → Server → Type 0
Entered client peer code password w s =
    (room : Room) × (lookup code w.rooms ≡ some room)
    × Admits client password room
    × (s ≡ after_entry client peer code room w)

unfoldable pub Outcome : Client → Peer → Bytes → Bytes → World → Server → Type 0
Outcome client peer code password w s = (s ≡ w.server) ⊎ Entered client peer code password w s

module _ ⦃io : Stream⦄ (client : Client) (peer : Peer) where
  pub enter_room-Ends :
      (code : Bytes) (room : Room) (w : World)
      → Ends (λ s. s ≡ after_entry client peer code room w) (enter_room client peer code room w)
  unfolding enter_room after_entry admitted
  enter_room-Ends code room w =
      let P : Server → Type 0 = λ s. s ≡ after_entry client peer code room w in
      Ends-bind P P _ _ (Ends-send_message P peer _ _ _ _ refl)
        (λ w₃ _ h. Ends-for_each P _ (λ p v. Ends-send_text P p _ _ v) peer _ w₃ h)

  join_found-Outcome :
      (code password : Bytes) (room : Room) (w : World)
      → lookup code w.rooms ≡ some room
      → Ends (Outcome client peer code password w) (join_found client peer code password room w)
  unfolding join_found Outcome Entered
  join_found-Outcome code password room w here =
      let P : Server → Type 0 = Outcome client peer code password w in
      let refusal = λ (text : Bytes). Ends-send_error P peer text w (inl refl) in
      Ends-if P (not (room.protocol == client.protocol_version)) _ _ (λ _. refusal _)
        (λ protocol.
          Ends-if P (not (bytes_eq room.password password)) _ _ (λ _. refusal _)
            (λ same.
              Ends-if P room.is_private _ _ (λ _. refusal _)
                (λ public.
                  Ends-if P (at_capacity room) _ _ (λ _. refusal _)
                    (λ space.
                      let admits : Admits client password room = record {
                        same_protocol = ground arith;
                        same_password = ground (arith, bytes_eq_iff room.password password);
                        not_private = public;
                        has_space = ground arith;
                      } in
                      Ends-weaken _ P _ (λ s h. inr (room, here, admits, h))
                        (enter_room-Ends code room w)))))

  pub join_named-Outcome :
      (code password : Bytes) (w : World)
      → Ends (Outcome client peer code password w) (join_named client peer code password w)
  unfolding join_named Outcome
  join_named-Outcome code password w =
      let P : Server → Type 0 = Outcome client peer code password w in
      Ends-case P (lookup code w.rooms) _ _ (λ _. Ends-send_error P peer _ w (inl refl))
        (λ room here. join_found-Outcome code password room w here)

-- A room whose host is a member has its host's entry already.
pub touch_host-hosted : (room : Room) → has room.host room.clients ≡ true → touch_host room ≡ room
unfolding touch_host
touch_host-hosted room h = elim (Option-cases (lookup room.host room.clients)) [
  | inl n ↦ absurd (ground arith)
  | inr (id, e) ↦ rw (e, touch_host) refl
]

-- What the newcomer and its room look like afterwards.
pub record Member (client : Client) (peer : Peer) (code : Bytes) (room : Room) (s : Server)
    : Type 0 where
  pub joined : Room
  pub in_place : lookup code s.rooms ≡ some joined
  pub listed : lookup peer joined.clients ≡ some client.id
  pub bounded : length joined.clients ≤ joined.max_players
  pub same_host : joined.host ≡ room.host
  pub same_limit : joined.max_players ≡ room.max_players
  pub aware :
      lookup peer s.clients ≡ some (record client { current_room = code; room_id = room.room_id })

after_entry-Member :
    (client : Client) (peer : Peer) (code : Bytes) (room : Room) (w : World)
    → has room.host room.clients ≡ true
    → lookup peer w.clients ≡ some client
    → lookup code w.rooms ≡ some room
    → length room.clients < room.max_players
    → Member client peer code room (after_entry client peer code room w)
unfolding after_entry admitted set_room set_client
after_entry-Member client peer code room w hosted known here space =
    let r : Room = record room { clients = put peer client.id room.clients } in
    let still : has r.host r.clients ≡ true =
      ground (arith, lookup-put peer room.host client.id room.clients) in
    let same : touch_host r ≡ r = touch_host-hosted r still in
    record {
      joined = r;
      in_place =
          rw same
            (ground (arith, lookup-assign code code r room w.rooms here, bytes_eq_iff code code));
      listed = ground (arith, lookup-put peer peer client.id room.clients);
      bounded = omega (arith, length-put peer client.id room.clients, space);
      same_host = refl;
      same_limit = refl;
      aware = ground (
        arith,
        lookup-assign peer peer (record client { current_room = code; room_id = room.room_id })
            client w.clients known,
      );
    }

-- In a state that satisfies the invariant, a join by a non-empty room code by a known client that
-- returns has either left the server as it was, or the room was there, its protocol and password
-- agree, it is not private and has space, and now the peer is a member of it, host and limit are
-- the same, its size is within the limit, and the client knows the room.
pub handle_room_join-admission :
    ⦃io : Stream⦄ (client : Client) (peer : Peer) (code password : Bytes) (w w' : World)
    → is_empty code ≡ false
    → Inv w.server
    → lookup peer w.clients ≡ some client
    → handle_room_join client peer code password w ≡ some w'
    → (w'.server ≡ w.server)
      ⊎ ((room : Room) × (lookup code w.rooms ≡ some room)
          × Admits client password room
          × Member client peer code room w'.server)
unfolding handle_room_join Outcome Entered
handle_room_join-admission client peer code password w w' named inv known e =
    let ran : join_named client peer code password w ≡ some w' = rw named at e in
    elim (Ends-result _ _ w' (join_named-Outcome client peer code password w) ran) [
      | inl same ↦ inl same
      | inr (room, here, admits, after) ↦
          let hosted = Inv-hosted code room inv here in
          inr (
            room,
            here,
            admits,
            subst (Member client peer code room) (sym after)
                (after_entry-Member client peer code room w hosted known here admits.has_space),
          )
    ]
