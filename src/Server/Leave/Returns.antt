-- ===== src/Server/Leave/Returns.antt =====
-- ynetserver.cpp: `handleRoomLeave` and `handleKickClient` on streams that keep their laws.
use ynetserver_enet.Base.{
  ℕ, ◌≤◌, ◌<◌, ◌^◌, ◌≡◌, refl, some, true, not, Bytes, nat_key, bytes_key, length, inl, arith, ◌==◌,
  option-cases, if-cases,
}
use ynetserver_enet.Base.Dict.{Dict, lookup}
use ynetserver_enet.Stream.{Stream, Laws}
use ynetserver_enet.Message.{player_left, message}
use ynetserver_enet.Text.{to_string}
use ynetserver_enet.Text.Decimal.{length-to_string}
use ynetserver_enet.Room.{Peer, Room, Client}
use ynetserver_enet.Server.{World, emit, set_room, get_client_for_peer}
use ynetserver_enet.Server.Send.{send_text, for_each}
use ynetserver_enet.Server.Leave.{
  without_peer, first_peer, close_room, migrate_host, leave_as_host, leave_room, handle_room_leave,
  kick, kick_member, handle_kick_client,
}
use ynetserver_enet.Server.Leave.Members.{IsFirst, find_member-IsFirst}
use ynetserver_enet.Server.Leave.Clearing.{Roomless, set_client-Roomless, dismiss-Clears}
use ynetserver_enet.Server.Yields.{
  Returns, Yields, Yields-some, Yields-bind, Yields-weaken, Yields-send_text, Yields-send_error,
  Yields-for_each,
}

module _ ⦃io : Stream⦄ (laws : Laws io) (id : ℕ) (small : id < 10 ^ 9) where
  short : length (to_string id) ≤ 60000
  short = omega (arith, length-to_string id 9 small (omega arith))

  notify-Returns :
      (members : Dict Peer ℕ) (w : World)
      → Returns (for_each (λ p. send_text p player_left (to_string id)) 0 members w)
  notify-Returns members w =
      Yields-for_each laws (λ w. Unit) _
        (λ p v _. Yields-send_text laws (λ w. Unit) p player_left _ v short tt) 0 members w tt

  close_room-Returns :
      (code : Bytes) (room : Room) (w : World) → Returns (close_room id code room w)
  unfolding close_room
  close_room-Returns code room w =
      Yields-bind (λ w. Unit) (λ w. Unit) _ _
        (Yields-for_each laws (λ w. Unit) _
          (λ p v _. Yields-weaken _ (λ w. Unit) _ (λ u _. tt) (dismiss-Clears laws id small p v)) 0
          room.clients w tt)
        (λ v _. Yields-some (λ w. Unit) _ tt)

  migrate_host-Returns :
      (code : Bytes) (room : Room) (p : Peer) (w : World) → Returns (migrate_host code room p w)
  unfolding migrate_host
  migrate_host-Returns code room p w =
      option-cases Returns (get_client_for_peer p (set_room code (record room { host = p }) w)) _ _
        (λ _. Yields-some (λ w. Unit) _ tt)
        (λ c _. Yields-send_text laws (λ w. Unit) p message _ _ (omega arith) tt)

  leave_room-Returns :
      (peer : Peer) (code : Bytes) (room : Room) (w : World)
      → Returns (leave_room id peer code room w)
  unfolding leave_room leave_as_host
  leave_room-Returns peer code room w =
      let room' : Room = without_peer peer room in
      if-cases Returns (room.host == peer) _ _
        (λ _.
          option-cases Returns (first_peer room'.clients) _ _ (λ _. Yields-some (λ w. Unit) _ tt)
            (λ p _.
              if-cases Returns (not room'.can_host_migrate) _ _
                (λ _. close_room-Returns code room' _) (λ _. migrate_host-Returns code room' p _)))
        (λ _. notify-Returns room'.clients _)

module _ ⦃io : Stream⦄ (laws : Laws io) where
  -- On streams that keep their laws, handleRoomLeave returns for every client whose id has at most
  -- nine digits, every peer and every state, and the client under that peer, if any, is in no room
  -- afterwards.
  pub handle_room_leave-returns :
      (client : Client) (peer : Peer) (w : World)
      → client.id < 10 ^ 9
      → (w' : World) × (handle_room_leave client peer w ≡ some w') × Roomless peer w'.server
  handle_room_leave-returns client peer w small = let y = yields in (y.world, y.returns, y.holds)
    where
      yields : Yields (λ v. Roomless peer v.server) (handle_room_leave client peer w)
      yields =
          let Q : World → Type 0 = λ v. Roomless peer v.server in
          let leaves = λ (v : World). set_client-Roomless peer peer client v (inl refl) in
          unfold handle_room_leave in
          option-cases (Yields Q) (lookup client.current_room w.rooms) _ _
            (λ _. Yields-some Q _ (leaves w))
            (λ room _.
              Yields-bind (λ w. Unit) Q _ _
                (leave_room-Returns laws client.id small peer client.current_room room w)
                (λ v _. Yields-some Q _ (leaves v)))

  pub kick-Yields :
      (p : Peer) (c : Client) (w : World)
      → c.id < 10 ^ 9
      → Yields (λ v. Roomless p v.server) (kick p c w)
  unfolding kick emit
  kick-Yields p c w small =
      let Q : World → Type 0 = λ v. Roomless p v.server in
      Yields-bind (λ w. Unit) Q _ _ (Yields-send_error laws (λ w. Unit) p _ w (omega arith) tt)
        (λ v _.
          let (u, ran, gone) = handle_room_leave-returns c p v small in
          Yields-bind Q Q _ _ (record { world = u; returns = ran; holds = gone })
            (λ t h. Yields-some Q _ h))

  -- On streams that keep their laws, when the host of the sender's room kicks a client id, the
  -- first member of the room with that id is a peer whose client the server knows, and that
  -- client's id has at most nine digits, the handler returns, and the client of that peer is in no
  -- room afterwards.
  pub handle_kick_client-kicks :
      (client : Client) (peer : Peer) (target : ℕ) (room : Room) (p : Peer) (c : Client) (w : World)
      → lookup client.current_room w.rooms ≡ some room
      → room.host ≡ peer
      → IsFirst target p room.clients
      → get_client_for_peer p w ≡ some c
      → c.id < 10 ^ 9
      → (w' : World) × (handle_kick_client client peer target w ≡ some w') × Roomless p w'.server
  unfolding handle_kick_client kick_member
  handle_kick_client-kicks client peer target room p c w here host member known small =
      let y = kick-Yields p c w small in
      let hosts : (room.host == peer) ≡ true = ground arith in
      let found = find_member-IsFirst target p room.clients member in
      (
        y.world,
        rw (here, handle_kick_client) (rw hosts (rw (found, kick_member) (rw known y.returns))),
        y.holds,
      )
