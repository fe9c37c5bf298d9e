-- ===== src/Server/Invariant/Leaves.antt =====
-- ynetserver.cpp: the invariant, `handleRoomLeave` and `handleKickClient`.
use ynetserver_enet.Base.{
  ◌==◌, not, false, ℕ, ◌≡◌, refl, true, [], ◌∷◌, none, some, Bytes, nat_key, bytes_key,
  bytes_eq_iff, inl, inr, arith, Option-cases,
}
use ynetserver_enet.Base.Dict.{Dict, lookup, has, erase, lookup-erase, lookup-assign}
use ynetserver_enet.Stream.{Stream}
use ynetserver_enet.Room.{Peer, Room, Client}
use ynetserver_enet.Server.{Server, World, emit, set_client, set_room, get_client_for_peer}
use ynetserver_enet.Server.Ends.{
  Ends, Ends-bind, Ends-send_text, Ends-send_error, Ends-for_each, Ends-if, Ends-case, Ends-some,
}
use ynetserver_enet.Server.Leave.{
  find_member, remove_room, forget_room, without_peer, first_peer, clear_client, dismiss,
  close_room, migrate_host, leave_as_host, leave_room, handle_room_leave, kick, kick_member,
  handle_kick_client,
}
use ynetserver_enet.Server.Invariant.Clients.{id_of}
use ynetserver_enet.Server.Invariant.Stable.{
  Stable, set_client-Stable, set_room-Stable, clear_client-Stable, remove_room-Stable,
}

-- The state is stable but for the gap at `code`, where the room `r` stands.
record At (s₀ : Server) (code : Bytes) (r : Room) (s : Server) : Type 0 where
  stable : Stable s₀ (some code) s
  here : lookup code s.rooms ≡ some r

pub first_peer-has :
    (members : Dict Peer ℕ) (p : Peer) → first_peer members ≡ some p → has p members ≡ true
unfolding first_peer lookup
first_peer-has [] p e = cc
first_peer-has ((q, id) ∷ members) p e = ground arith

-- What is written to a room that is there can be read back.
lookup-set_room :
    (code : Bytes) (r r' : Room) (w : World)
    → lookup code w.rooms ≡ some r
    → lookup code (set_room code r' w).rooms ≡ some r'
unfolding set_room
lookup-set_room code r r' w here =
    ground (arith, lookup-assign code code r' r w.rooms here, bytes_eq_iff code code)

module _ ⦃io : Stream⦄ {s₀ : Server} where
  dismiss-At :
      (code : Bytes) (r : Room) (id : ℕ) (p : Peer) (w : World)
      → At s₀ code r w.server
      → Ends (At s₀ code r) (dismiss id p w)
  unfolding dismiss emit
  dismiss-At code r id p w h =
      let P = At s₀ code r in
      Ends-bind P P _ _ (Ends-send_text P p _ _ w h) λ w₁ _ h₁.
        Ends-bind P P _ _ (Ends-send_text P p _ _ w₁ h₁) λ w₂ _ h₂.
          Ends-bind P P _ _ (Ends-send_error P p _ w₂ h₂) λ w₃ _ h₃. Ends-some P _ (record {
            stable = clear_client-Stable p w₃ h₃.stable;
            here = rooms-clear p w₃ h₃.here;
          })
    where
      rooms-clear :
          (p : Peer) (w : World)
          → lookup code w.rooms ≡ some r
          → lookup code (clear_client p w).rooms ≡ some r
      rooms-clear p w e = elim (Option-cases (get_client_for_peer p w)) [
        | inl n ↦ unfold clear_client in rw (n, clear_client) e
        | inr (c, s) ↦ unfold clear_client set_client in rw (s, clear_client) e
      ]

  -- Removing the room closes the gap.
  remove-At :
      (code : Bytes) (r : Room) (w : World)
      → At s₀ code r w.server
      → Stable s₀ none (remove_room code r.room_id w).server
  remove-At code r w h = remove_room-Stable code r w h.here (λ c g. ground arith) h.stable

  close_room-Stable :
      (id : ℕ) (code : Bytes) (r : Room) (w : World)
      → At s₀ code r w.server
      → Ends (Stable s₀ none) (close_room id code r w)
  unfolding close_room
  close_room-Stable id code r w h =
      Ends-bind (At s₀ code r) (Stable s₀ none) _ _
        (Ends-for_each (At s₀ code r) _ (dismiss-At code r id) 0 r.clients w h)
        (λ w' _ h'. Ends-some (Stable s₀ none) _ (remove-At code r w' h'))

  migrate_host-Stable :
      (code : Bytes) (r : Room) (p : Peer) (w : World)
      → has p r.clients ≡ true
      → At s₀ code r w.server
      → Ends (Stable s₀ none) (migrate_host code r p w)
  unfolding migrate_host
  migrate_host-Stable code r p w member h =
      let r' : Room = record r { host = p } in
      let w' : World = set_room code r' w in
      let st : Stable s₀ none w'.server =
        set_room-Stable none code r r' w h.here refl refl (inr member)
          (λ c other g. absurd (other (ground arith))) h.stable in
      let P : Server → Type 0 = Stable s₀ none in
      let there = lookup-set_room code r r' w h.here in
      Ends-case P (get_client_for_peer p w') _ _
        (λ _. Ends-some P _ (remove_room-Stable code r' w' there (λ c g. cc) st))
        (λ c _. Ends-send_text P p _ _ w' st)

  leave_as_host-Stable :
      (id : ℕ) (code : Bytes) (r : Room) (w : World)
      → At s₀ code r w.server
      → Ends (Stable s₀ none) (leave_as_host id code r w)
  unfolding leave_as_host
  leave_as_host-Stable id code r w h =
      let P : Server → Type 0 = Stable s₀ none in
      Ends-case P (first_peer r.clients) _ _ (λ _. Ends-some P _ (remove-At code r w h))
        (λ p first.
          Ends-if P (not r.can_host_migrate) _ _ (λ _. close_room-Stable id code r w h)
            (λ _. migrate_host-Stable code r p w (first_peer-has r.clients p first) h))

  leave_room-Stable :
      (id : ℕ) (peer : Peer) (code : Bytes) (r : Room) (w : World)
      → lookup code w.rooms ≡ some r
      → Stable s₀ none w.server
      → Ends (Stable s₀ none) (leave_room id peer code r w)
  unfolding leave_room
  leave_room-Stable id peer code r w here st =
      let r' : Room = without_peer peer r in
      let w' : World = set_room code r' w in
      let P : Server → Type 0 = Stable s₀ none in
      Ends-if P (r.host == peer) _ _
        (λ _. leave_as_host-Stable id code r' w' (record {
          stable =
              set_room-Stable (some code) code r r' w here (unfold without_peer in refl)
                (unfold without_peer in refl) (inl refl) (λ c _ g. cc) st;
          here = lookup-set_room code r r' w here;
        }))
        (λ (guest : (r.host == peer) ≡ false).
          let hosted : has r.host (erase peer r.clients) ≡ true =
            ground (arith, st.rooms.hosted code r here, lookup-erase peer r.host r.clients) in
          Ends-for_each P _ (λ p w. Ends-send_text P p _ _ w) 0 _ w'
            (set_room-Stable none code r r' w here (unfold without_peer in refl)
              (unfold without_peer in refl) (inr (unfold without_peer in hosted)) (λ c _ g. g) st))

  pub handle_room_leave-Stable :
      (client : Client) (peer : Peer) (w : World)
      → id_of peer s₀.clients ≡ some client.id
      → Stable s₀ none w.server
      → Ends (Stable s₀ none) (handle_room_leave client peer w)
  unfolding handle_room_leave
  handle_room_leave-Stable client peer w known st =
      let P = Stable s₀ none in
      let forgets = λ (v : World) (h : Stable s₀ none v.server).
        set_client-Stable peer (forget_room client) v (unfold forget_room in known) h in
      Ends-case P (lookup client.current_room w.rooms) _ _ (λ _. Ends-some P _ (forgets w st))
        (λ r here.
          Ends-bind P P _ _ (leave_room-Stable client.id peer client.current_room r w here st)
            (λ w' _ st'. Ends-some P _ (forgets w' st')))

  kick-Stable :
      (p : Peer) (c : Client) (w : World)
      → get_client_for_peer p w ≡ some c
      → Stable s₀ none w.server
      → Ends (Stable s₀ none) (kick p c w)
  unfolding kick emit get_client_for_peer
  kick-Stable p c w e st =
      let P = Stable s₀ none in
      let known : id_of p s₀.clients ≡ some c.id = ground (arith, st.ids p) in
      Ends-bind P P _ _ (Ends-send_error P p _ w st) λ w₁ _ st₁.
        Ends-bind P P _ _ (handle_room_leave-Stable c p w₁ known st₁) λ w₂ _ st₂. Ends-some P _ st₂

  pub handle_kick_client-Stable :
      (client : Client) (peer : Peer) (target : ℕ) (w : World)
      → Stable s₀ none w.server
      → Ends (Stable s₀ none) (handle_kick_client client peer target w)
  unfolding handle_kick_client
  handle_kick_client-Stable client peer target w st =
      let P : Server → Type 0 = Stable s₀ none in
      Ends-case P (lookup client.current_room w.rooms) _ _ (λ _. Ends-some P w st)
        (λ r _. Ends-if P (not (r.host == peer)) _ _ (λ _. Ends-some P w st) (λ _. member r))
    where
      member : (r : Room) → Ends (Stable s₀ none) (kick_member target r w)
      member r =
          let P : Server → Type 0 = Stable s₀ none in
          unfold kick_member in
          Ends-case P (find_member target r.clients) _ _ (λ _. Ends-some P w st)
            (λ p _.
              Ends-case P (get_client_for_peer p w) _ _ (λ _. Ends-some P w st)
                (λ c here. kick-Stable p c w here st))
