-- ===== src/Server/Invariant/Joins.antt =====
-- ynetserver.cpp: the invariant and `handleRoomJoin`, `handleJoinOrCreateRoom` and
-- `handleJoinOrCreateRoomRandom`.
use ynetserver_enet.Base.{
  not, bytes_eq, is_empty, length, ◌==◌, bytes, ◌≡◌, true, [], ◌∷◌, none, some, Bytes, nat_key,
  bytes_key, inl, inr, arith, Option-cases,
}
use ynetserver_enet.Room.Code.{draw}
use ynetserver_enet.Base.Dict.{lookup, has, put, lookup-put}
use ynetserver_enet.Stream.{Stream}
use ynetserver_enet.Room.{Peer, Room, Client}
use ynetserver_enet.Server.{Server, World, set_client, set_room}
use ynetserver_enet.Server.Send.{send_error}
use ynetserver_enet.Server.Ends.{
  Ends, Ends-bind, Ends-send_message, Ends-send_text, Ends-send_error, Ends-for_each, Ends-if,
  Ends-case,
}
use ynetserver_enet.Server.Create.{final_room_code}
use ynetserver_enet.Server.Join.{
  matching_rooms, element, at_capacity, first_open, touch_host, enter_room, join_random, join_found,
  join_named, handle_room_join, handle_join_or_create_room, handle_join_or_create_room_random,
}
use ynetserver_enet.Server.Invariant.Clients.{id_of}
use ynetserver_enet.Server.Invariant.Creates.{handle_room_creation-Stable}
use ynetserver_enet.Server.Invariant.Stable.{Stable, set_client-Stable, set_room-Stable}

-- After `room.clients[room.host]` the host has an entry.
pub touch_host-hosted : (room : Room) → has (touch_host room).host (touch_host room).clients ≡ true
unfolding touch_host
touch_host-hosted room = elim (Option-cases (lookup room.host room.clients)) [
  | inl n ↦ ground (arith, lookup-put room.host room.host 0 room.clients)
  | inr (id, e) ↦ ground arith
]

pub touch_host-same :
    (room : Room)
    → ((touch_host room).room_id ≡ room.room_id) × ((touch_host room).room_code ≡ room.room_code)
unfolding touch_host
touch_host-same room = ground arith

module _ ⦃io : Stream⦄ {s₀ : Server} (client : Client) (peer : Peer)
    (known : id_of peer s₀.clients ≡ some client.id) where
  enter_room-Stable :
      (code : Bytes) (room : Room) (w : World)
      → lookup code w.rooms ≡ some room
      → Stable s₀ none w.server
      → Ends (Stable s₀ none) (enter_room client peer code room w)
  unfolding enter_room
  enter_room-Stable code room w here st =
      let P : Server → Type 0 = Stable s₀ none in
      let w₁ : World =
        set_client peer (record client { current_room = code; room_id = room.room_id }) w in
      let before : Room = record room { clients = put peer client.id room.clients } in
      let (same_id, same_code) = touch_host-same before in
      let w₂ : World = set_room code (touch_host before) w₁ in
      let st₁ : Stable s₀ none w₁.server = set_client-Stable peer _ w known st in
      let st₂ : Stable s₀ none w₂.server =
        set_room-Stable none code room (touch_host before) w₁ (unfold set_client in here) same_id
          same_code (inr (touch_host-hosted before)) (λ c _ g. g) st₁ in
      Ends-bind P P _ _ (Ends-send_message P peer _ _ _ w₂ st₂)
        (λ w₃ _ st₃. Ends-for_each P _ (λ p w. Ends-send_text P p _ _ w) peer _ w₃ st₃)

  join_random-Stable :
      (password : Bytes) (w : World)
      → Stable s₀ none w.server
      → Ends (Stable s₀ none) (join_random client peer password w)
  unfolding join_random
  join_random-Stable password w st =
      let P : Server → Type 0 = Stable s₀ none in
      let matching = matching_rooms password client.protocol_version w.rooms in
      let selected = element matching (draw (length matching) w.random).0 in
      let w' : World = record w { random = (draw (length matching) w.random).1 } in
      let gone = send_error peer (bytes "Selected room no longer available") w' in
      let enter = λ (room : Room). enter_room client peer selected room w' in
      Ends-if P (is_empty matching) _ _
        (λ _. Ends-send_error P peer (bytes "No available rooms found") w st)
        (λ _.
          Ends-case P (lookup selected w.rooms) gone enter (λ _. Ends-send_error P peer _ w' st)
            (λ room here. enter_room-Stable selected room w' here st))

  join_found-Stable :
      (code password : Bytes) (room : Room) (w : World)
      → lookup code w.rooms ≡ some room
      → Stable s₀ none w.server
      → Ends (Stable s₀ none) (join_found client peer code password room w)
  unfolding join_found
  join_found-Stable code password room w here st =
      let P : Server → Type 0 = Stable s₀ none in
      let refusal = λ (text : Bytes). Ends-send_error P peer text w st in
      Ends-if P (not (room.protocol == client.protocol_version)) _ _ (λ _. refusal _)
        (λ _.
          Ends-if P (not (bytes_eq room.password password)) _ _ (λ _. refusal _)
            (λ _.
              Ends-if P room.is_private _ _ (λ _. refusal _)
                (λ _.
                  Ends-if P (at_capacity room) _ _ (λ _. refusal _)
                    (λ _. enter_room-Stable code room w here st))))

  join_named-Stable :
      (code password : Bytes) (w : World)
      → Stable s₀ none w.server
      → Ends (Stable s₀ none) (join_named client peer code password w)
  unfolding join_named
  join_named-Stable code password w st =
      Ends-case (Stable s₀ none) (lookup code w.rooms) _ _
        (λ _. Ends-send_error (Stable s₀ none) peer _ w st)
        (λ room here. join_found-Stable code password room w here st)

  pub handle_room_join-Stable :
      (code password : Bytes) (w : World)
      → Stable s₀ none w.server
      → Ends (Stable s₀ none) (handle_room_join client peer code password w)
  unfolding handle_room_join
  handle_room_join-Stable [] password w st = join_random-Stable password w st
  handle_room_join-Stable (c ∷ code) password w st = join_named-Stable (c ∷ code) password w st

  final-Stable :
      (code : Bytes) (w : World)
      → Stable s₀ none w.server
      → Stable s₀ none (final_room_code code w).1.server
  unfolding final_room_code
  final-Stable [] w st = st
  final-Stable (c ∷ code) w st = st

  pub handle_join_or_create_room-Stable :
      (room_code password : Bytes) (w : World)
      → Stable s₀ none w.server
      → Ends (Stable s₀ none) (handle_join_or_create_room client peer room_code password w)
  unfolding handle_join_or_create_room
  handle_join_or_create_room-Stable room_code password w st =
      let code = (final_room_code room_code w).0 in
      let w' = (final_room_code room_code w).1 in
      let st' = final-Stable room_code w st in
      Ends-if (Stable s₀ none) (has code w'.rooms) _ _
        (λ _. handle_room_join-Stable code password w' st')
        (λ _. handle_room_creation-Stable client peer known code password w' st')

  pub handle_join_or_create_room_random-Stable :
      (w : World)
      → Stable s₀ none w.server
      → Ends (Stable s₀ none) (handle_join_or_create_room_random client peer w)
  unfolding handle_join_or_create_room_random
  handle_join_or_create_room_random-Stable w st =
      Ends-case (Stable s₀ none) (first_open client.protocol_version w.rooms) _ _
        (λ _. handle_room_creation-Stable client peer known _ [] _ st)
        (λ code _. handle_room_join-Stable code [] w st)
