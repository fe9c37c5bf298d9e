-- ===== src/Server/Invariant/Creates.antt =====
-- ynetserver.cpp: the invariant and `handleRoomCreation`.
use ynetserver_enet.Base.{
  ℕ, ◌<◌, ◌≡◌, refl, sym, subst, ◌∷◌, true, false, [], none, some, Bytes, nat_key, bytes_key, inl,
  inr, arith, Bool-cases, Option-cases,
}
use ynetserver_enet.Base.Dict.{lookup, has, insert, contains, include}
use ynetserver_enet.Stream.{Stream}
use ynetserver_enet.Message.{confirm_room_creation}
use ynetserver_enet.Room.{Peer, Room, Client}
use ynetserver_enet.Room.Code.{is_valid_room_code, generate_room_code}
use ynetserver_enet.Server.{Server, World}
use ynetserver_enet.Server.Ids.{generate_room_id, next_room}
use ynetserver_enet.Server.Ids.Search.{generate_room_id-unused}
use ynetserver_enet.Server.Ends.{Ends, Ends-send_text, Ends-send_error}
use ynetserver_enet.Server.Create.{new_room, add_room, create_checked, handle_room_creation}
use ynetserver_enet.Server.Invariant.Rooms.{RoomsOk-insert}
use ynetserver_enet.Server.Invariant.Clients.{id_of}
use ynetserver_enet.Server.Invariant.Stable.{Stable, set_client-Stable}

module _ ⦃io : Stream⦄ {s₀ : Server} (client : Client) (peer : Peer)
    (known : id_of peer s₀.clients ≡ some client.id) where
  -- The state with the new room in it.
  added-Stable :
      (id : ℕ) (code password : Bytes) (s : Server)
      → id < 65536
      → contains id s.used_room_ids ≡ false
      → is_valid_room_code code ≡ true
      → lookup code s.rooms ≡ none
      → Stable s₀ none s
      → Stable s₀ none (record s {
        used_room_ids = include id s.used_room_ids;
        next_room_id = next_room id;
        rooms = insert code (new_room id code client peer password) s.rooms;
      })
  unfolding new_room
  added-Stable id code password s below free valid absent st = record {
    rooms =
        let room : Room = new_room id code client peer password in
        let host : has room.host room.clients ≡ true = unfold lookup in ground arith in
        RoomsOk-insert s.rooms code room room st.rooms absent valid refl free host;
    ids = st.ids;
    used = st.used;
    next_client = st.next_client;
    next_room = omega arith;
  }

  add_room-Stable :
      (code password : Bytes) (w : World)
      → is_valid_room_code code ≡ true
      → lookup code w.rooms ≡ none
      → Stable s₀ none w.server
      → Ends (Stable s₀ none) (add_room client peer code password w)
  unfolding add_room
  add_room-Stable code password w valid absent st =
      elim (Option-cases (generate_room_id w.server)) [
        | inl n ↦ rw n (unfold Ends in tt)
        | inr ((id, s), e) ↦
            let (free, below, same) = generate_room_id-unused w.server s id st.next_room e in
            let room : Room = new_room id code client peer password in
            let w₁ : World = record w { server = record s { rooms = insert code room s.rooms } } in
            let added : Stable s₀ none w₁.server =
              subst (λ (t : Server). Stable s₀ none (record t { rooms = insert code room t.rooms }))
                (sym same) (added-Stable id code password w.server below free valid absent st) in
            rw e (
              Ends-send_text (Stable s₀ none) peer confirm_room_creation code _ (
                set_client-Stable peer (record client { current_room = code; room_id = id }) w₁
                  known added))
      ]

  create_checked-Stable :
      (code password : Bytes) (w : World)
      → Stable s₀ none w.server
      → Ends (Stable s₀ none) (create_checked client peer code password w)
  unfolding create_checked
  create_checked-Stable code password w st = elim (Bool-cases (is_valid_room_code code)) [
    | inr bad ↦ rw bad (Ends-send_error (Stable s₀ none) peer _ w st)
    | inl valid ↦ elim (Bool-cases (has code w.rooms)) [
      | inl there ↦ rw (valid, there) (Ends-send_error (Stable s₀ none) peer _ w st)
      | inr absent ↦ rw (valid, absent) (add_room-Stable code password w valid (ground arith) st)
    ]
  ]

  pub handle_room_creation-Stable :
      (room_code password : Bytes) (w : World)
      → Stable s₀ none w.server
      → Ends (Stable s₀ none) (handle_room_creation client peer room_code password w)
  unfolding handle_room_creation
  handle_room_creation-Stable [] password w st =
      create_checked-Stable (generate_room_code w.random).0 password _ st
  handle_room_creation-Stable (c ∷ code) password w st =
      create_checked-Stable (c ∷ code) password w st
