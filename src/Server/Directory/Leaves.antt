-- ===== src/Server/Directory/Leaves.antt =====
-- ynetserver.cpp: departures and kicks as steps of the directory.
use ynetserver_enet.Base.{
  ℕ, ◌≡◌, refl, subst, Option, none, some, true, false, not, Bytes, bytes_key, nat_key, inl, inr,
  arith, Option-cases, ◌==◌,
}
use ynetserver_enet.Base.Dict.{Dict, lookup, has, lookup-erase}
use ynetserver_enet.Stream.{Stream}
use ynetserver_enet.Message.{player_left}
use ynetserver_enet.Room.{Peer, Room, Client}
use ynetserver_enet.Server.{Server, World, set_room, set_client, get_client_for_peer, emit}
use ynetserver_enet.Server.Leave.{
  without_peer, first_peer, dismiss, close_room, migrate_host, leave_as_host, leave_room,
  handle_room_leave, find_member, kick, kick_member, handle_kick_client,
}
use ynetserver_enet.Server.Ends.{
  Ends, Ends-some, Ends-bind, Ends-if, Ends-case, Ends-weaken, Ends-send_text, Ends-send_error,
  Ends-for_each,
}
use ynetserver_enet.Server.Directory.{Protocols, seat, OneLess, leaves, hands_over, closes, Refines}
use ynetserver_enet.Server.Directory.Writes.{
  Now, Now-Becomes, start-Now, set_room-Now, clear_client-Now, remove_room-Now,
}
use ynetserver_enet.Server.Directory.Enters.{Refines-same}
use ynetserver_enet.Server.Invariant.Leaves.{first_peer-has}

module _ ⦃io : Stream⦄ (rooms : Dict Bytes Room) (code : Bytes) where
  dismiss-Now :
      (id : ℕ) (x : Option Room) (p : Peer) (w : World)
      → Now rooms code x w.server
      → Ends (Now rooms code x) (dismiss id p w)
  unfolding dismiss emit
  dismiss-Now id x p w now =
      let P : Server → Type 0 = Now rooms code x in
      Ends-bind P P _ _ (Ends-send_text P p _ _ w now) λ w₁ _ n₁.
        Ends-bind P P _ _ (Ends-send_text P p _ _ w₁ n₁) λ w₂ _ n₂.
          Ends-bind P P _ _ (Ends-send_error P p _ w₂ n₂)
            λ w₃ _ n₃. Ends-some P _ (clear_client-Now p w₃ n₃)

  close_room-Now :
      (id : ℕ) (r : Room) (w : World)
      → Now rooms code (some r) w.server
      → Ends (Now rooms code none) (close_room id code r w)
  unfolding close_room
  close_room-Now id r w now =
      Ends-bind (Now rooms code (some r)) (Now rooms code none) _ _
        (Ends-for_each (Now rooms code (some r)) _ (dismiss-Now id (some r)) 0 r.clients w now)
        (λ v _ n. Ends-some (Now rooms code none) _ (remove_room-Now r.room_id v n))

-- What becomes of a room that its host has left: nothing, or the same under its first member.
data Left (rooms : Dict Bytes Room) (code : Bytes) (r : Room) (s : Server) : Type 0 where
  closed : Now rooms code none s → Left rooms code r s
  handed :
      (q : Peer)
      → r.can_host_migrate ≡ true
      → first_peer r.clients ≡ some q
      → Now rooms code (some (record r { host = q })) s
      → Left rooms code r s

module _ ⦃io : Stream⦄ (rooms : Dict Bytes Room) (code : Bytes) (r : Room) where
  leave_as_host-Left :
      (id : ℕ) (w : World)
      → Now rooms code (some r) w.server
      → Ends (Left rooms code r) (leave_as_host id code r w)
  unfolding leave_as_host migrate_host
  leave_as_host-Left id w now =
      let P : Server → Type 0 = Left rooms code r in
      Ends-case P (first_peer r.clients) _ _
        (λ _. Ends-some P _ (closed (remove_room-Now r.room_id w now)))
        (λ q first.
          Ends-if P (not r.can_host_migrate) _ _
            (λ _. Ends-weaken _ P _ (λ s n. closed n) (close_room-Now rooms code id r w now))
            (λ migrates.
              let w' : World = set_room code (record r { host = q }) w in
              let now' = set_room-Now r (record r { host = q }) w now in
              Ends-case P (get_client_for_peer q w') _ _
                (λ _. Ends-some P _ (closed (remove_room-Now r.room_id w' now')))
                (λ c _. Ends-send_text P q _ _ w' (handed q (ground arith) first now'))))

without_peer-OneLess :
    (peer host : Peer) (r : Room)
    → OneLess peer host (seat r) (seat (record (without_peer peer r) { host = host }))
unfolding without_peer
without_peer-OneLess peer host r = record {
  hosted = refl;
  gone = λ q. lookup-erase peer q r.clients;
  same_limit = refl;
  same_protocol = refl;
  same_privacy = refl;
  same_migration = refl;
}

-- A departure of the host closes the room or hands it over.
Left-Refines :
    (speaks : Protocols) (rooms : Dict Bytes Room) (code : Bytes) (peer : Peer) (r : Room)
    (s : Server)
    → lookup code rooms ≡ some r
    → r.host ≡ peer
    → Left rooms code (without_peer peer r) s
    → Refines speaks rooms s.rooms
unfolding Refines without_peer
Left-Refines speaks rooms code peer r s here hosts (closed now) =
    inr (closes code (seat r) (rw here refl) (Now-Becomes now))
Left-Refines speaks rooms code peer r s here hosts (handed q migrates first now) =
    let r' : Room = record (without_peer peer r) { host = q } in
    let member : has q r'.clients ≡ true = first_peer-has r'.clients q first in
    elim (Option-cases (lookup q r'.clients)) [
      | inl n ↦ absurd (ground arith)
      | inr (id, e) ↦ inr (
          hands_over code peer q id (seat r) (seat r') (rw here refl) hosts migrates e
            (without_peer-OneLess peer q r) (Now-Becomes now))
    ]

module _ ⦃io : Stream⦄ (speaks : Protocols) where
  leave_room-Refines :
      (id : ℕ) (peer : Peer) (code : Bytes) (r : Room) (w : World)
      → lookup code w.rooms ≡ some r
      → Ends (λ s. Refines speaks w.rooms s.rooms) (leave_room id peer code r w)
  unfolding leave_room
  leave_room-Refines id peer code r w here =
      let P : Server → Type 0 = λ s. Refines speaks w.rooms s.rooms in
      let r' : Room = without_peer peer r in
      let w' : World = set_room code r' w in
      let now' = set_room-Now r r' w (start-Now code (some r) w.server here) in
      Ends-if P (r.host == peer) _ _
        (λ host.
          Ends-weaken _ P _ (λ s l. Left-Refines speaks w.rooms code peer r s here (ground arith) l)
            (leave_as_host-Left w.rooms code r' id w' now'))
        (λ guest. Ends-weaken (Now w.rooms code (some r')) P _ (guest_leaves r guest here) (
          Ends-for_each (Now w.rooms code (some r')) _ (λ p v. Ends-send_text _ p player_left _ v) 0
            r'.clients w' now'))
    where
      guest_leaves :
          (r : Room)
          → (r.host == peer) ≡ false
          → lookup code w.rooms ≡ some r
          → (s : Server) → Now w.rooms code (some (without_peer peer r)) s
          → Refines speaks w.rooms s.rooms
      guest_leaves r guest here s now =
          unfold Refines without_peer in
          inr (
            leaves code peer (seat r) (seat (without_peer peer r)) (rw here refl) guest
              (without_peer-OneLess peer r.host r) (Now-Becomes now))

  pub handle_room_leave-Refines :
      (client : Client) (peer : Peer) (w : World)
      → Ends (λ s. Refines speaks w.rooms s.rooms) (handle_room_leave client peer w)
  unfolding handle_room_leave set_client
  handle_room_leave-Refines client peer w =
      let P : Server → Type 0 = λ s. Refines speaks w.rooms s.rooms in
      Ends-case P (lookup client.current_room w.rooms) _ _
        (λ _. Ends-some P _ (Refines-same speaks w.rooms))
        (λ r here.
          Ends-bind P P _ _ (leave_room-Refines client.id peer client.current_room r w here)
            (λ w' _ h. Ends-some P _ h))

  kick-Refines :
      (p : Peer) (c : Client) (w : World) → Ends (λ s. Refines speaks w.rooms s.rooms) (kick p c w)
  unfolding kick emit
  kick-Refines p c w =
      let P : Server → Type 0 = λ s. Refines speaks w.rooms s.rooms in
      let Same : Server → Type 0 = λ s. s.rooms ≡ w.rooms in
      Ends-bind Same P _ _ (Ends-send_error Same p _ w refl)
        λ w₁ _ same. Ends-bind P P _ _ (moved w₁ same) λ w₂ _ h. Ends-some P _ h
    where
      moved :
          (v : World)
          → v.rooms ≡ w.rooms
          → Ends (λ s. Refines speaks w.rooms s.rooms) (handle_room_leave c p v)
      moved v same =
          subst (λ d. Ends (λ s. Refines speaks d s.rooms) (handle_room_leave c p v)) same
            (handle_room_leave-Refines c p v)

  pub handle_kick_client-Refines :
      (client : Client) (peer : Peer) (target : ℕ) (w : World)
      → Ends (λ s. Refines speaks w.rooms s.rooms) (handle_kick_client client peer target w)
  unfolding handle_kick_client kick_member
  handle_kick_client-Refines client peer target w =
      let P : Server → Type 0 = λ s. Refines speaks w.rooms s.rooms in
      let stay = Ends-some P w (Refines-same speaks w.rooms) in
      Ends-case P (lookup client.current_room w.rooms) _ _ (λ _. stay)
        (λ r _.
          Ends-if P (not (r.host == peer)) _ _ (λ _. stay)
            (λ _.
              Ends-case P (find_member target r.clients) _ _ (λ _. stay)
                (λ p _.
                  Ends-case P (get_client_for_peer p w) _ _ (λ _. stay)
                    (λ c _. kick-Refines p c w))))
