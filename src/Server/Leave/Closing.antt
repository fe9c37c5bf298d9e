-- ===== src/Server/Leave/Closing.antt =====
-- ynetserver.cpp: what `handleRoomLeave` does when the host of a room leaves it.
use ynetserver_enet.Server.Leave.Clearing.{
  Roomless, Among, Clears, nobody-Clears, for_each-Clears, set_client-Roomless,
}
use ynetserver_enet.Base.{
  ℕ, ◌<◌, ◌^◌, ◌≡◌, ◌≢◌, ◌⊎◌, refl, none, some, true, false, not, Bytes, nat_key, bytes_key,
  bytes_eq_iff, inl, inr, arith, Bool-cases, ◌==◌, option-cases, if-cases,
}
use ynetserver_enet.Base.Dict.{lookup, has, contains, lookup-erase, contains-exclude}
use ynetserver_enet.Stream.{Stream, Laws}
use ynetserver_enet.Room.{Peer, Room, Client}
use ynetserver_enet.Server.{Server, World, set_client, set_room}
use ynetserver_enet.Server.Ids.{release_room_id}
use ynetserver_enet.Server.Leave.{
  remove_room, forget_room, without_peer, first_peer, close_room, leave_as_host, leave_room,
  handle_room_leave,
}
use ynetserver_enet.Server.Yields.{Yields, Yields-some, Yields-bind}

-- The room is gone, its id is free, and its members are in no room.
abbrev Closed : Bytes → Room → Server → Server → Type 0
Closed code room s₀ s =
    (lookup code s.rooms ≡ none)
    × (contains room.room_id s.used_room_ids ≡ false)
    × ((q : Peer) → Among room.clients q ⊎ Roomless q s₀ → Roomless q s)

module _ ⦃io : Stream⦄ (laws : Laws io) (id : ℕ) (small : id < 10 ^ 9) where
  remove_room-Closed :
      (code : Bytes) (room : Room) (s₀ : Server) (v : World)
      → Clears (Among room.clients) s₀ v.server
      → Closed code room s₀ (remove_room code room.room_id v).server
  unfolding remove_room release_room_id
  remove_room-Closed code room s₀ v h = (
    ground (arith, lookup-erase code code v.rooms, bytes_eq_iff code code),
    ground (arith, contains-exclude room.room_id room.room_id v.used_room_ids),
    h.roomless,
  )

  leave_as_host-Closed :
      (code : Bytes) (room : Room) (w : World)
      → room.can_host_migrate ≡ false
      → Yields (λ v. Closed code room w.server v.server) (leave_as_host id code room w)
  unfolding leave_as_host close_room
  leave_as_host-Closed code room w fixed =
      let Q : World → Type 0 = λ v. Closed code room w.server v.server in
      option-cases (Yields Q) (first_peer room.clients) _ _
        (λ n.
          Yields-some Q _ (remove_room-Closed code room w.server w (nobody-Clears room n w.server)))
        (λ p _.
          if-cases (Yields Q) (not room.can_host_migrate) _ _
            (λ _.
              Yields-bind (λ v. Clears (Among room.clients) w.server v.server) Q _ _
                (for_each-Clears laws id small room.clients w)
                (λ v h. Yields-some Q _ (remove_room-Closed code room w.server v h)))
            (λ e. absurd (ground arith)))

  leave_room-Closed :
      (peer : Peer) (code : Bytes) (room : Room) (w : World)
      → room.host ≡ peer
      → room.can_host_migrate ≡ false
      → Yields
          (λ v. Closed code (without_peer peer room) w.server v.server)
          (leave_room id peer code room w)
  unfolding leave_room without_peer set_room
  leave_room-Closed peer code room w host fixed =
      let room' : Room = without_peer peer room in
      if-cases (Yields (λ v. Closed code room' w.server v.server)) (room.host == peer) _ _
        (λ _. leave_as_host-Closed code room' (set_room code room' w) fixed)
        (λ e. absurd (ground arith))

-- On streams that keep their laws, when the host of a room without host migration, whose client id
-- has at most nine digits, leaves it, the handler returns, the room is gone, its id is free, and
-- no member that the server knows is in a room any more.
pub handle_room_leave-closes :
    ⦃io : Stream⦄
    → Laws io
    → (client : Client) (peer : Peer) (room : Room) (w : World) → client.id < 10 ^ 9
    → lookup client.current_room w.rooms ≡ some room
    → room.host ≡ peer
    → room.can_host_migrate ≡ false
    → (w' : World) × (handle_room_leave client peer w ≡ some w')
      × (lookup client.current_room w'.rooms ≡ none)
      × (contains room.room_id w'.used_room_ids ≡ false)
      × ((q : Peer) → q ≢ 0 → has q room.clients ≡ true → Roomless q w'.server)
unfolding handle_room_leave without_peer
handle_room_leave-closes laws client peer room w small here host fixed =
    let code : Bytes = client.current_room in
    let y = leave_room-Closed laws client.id small peer code room w host fixed in
    let (gone, free, roomless) = y.holds in
    let w' : World = set_client peer (forget_room client) y.world in
    (
      w',
      rw (here, handle_room_leave) (rw y.returns refl),
      unfold set_client in gone,
      unfold set_client in free,
      λ q nonzero member. set_client-Roomless peer q client y.world (elim (Bool-cases (peer == q)) [
        | inl same ↦ inl (ground arith)
        | inr other ↦
            inr (roomless q (inl (nonzero, ground (arith, lookup-erase peer q room.clients))))
      ]),
    )
