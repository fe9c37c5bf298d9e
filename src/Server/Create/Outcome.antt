-- ===== src/Server/Create/Outcome.antt =====
-- ynetserver.cpp: what `handleRoomCreation` leaves behind.
use ynetserver_enet.Base.{
  ◌<◌, ◌≡◌, ◌≢◌, ◌⊎◌, refl, [], ◌∷◌, true, false, none, some, Bytes, bytes_key, bytes_eq,
  bytes_eq_iff, nat_key, inl, inr, arith, Bool-cases, Option-cases, not, ap,
}
use ynetserver_enet.Base.Dict.{lookup, has, insert, contains, lookup-insert}
use ynetserver_enet.Stream.{Stream}
use ynetserver_enet.Message.{confirm_room_creation}
use ynetserver_enet.Room.{Peer, Room, Client}
use ynetserver_enet.Room.Code.{is_valid_room_code, generate_room_code}
use ynetserver_enet.Server.{Server, World, set_client}
use ynetserver_enet.Server.Ids.{generate_room_id}
use ynetserver_enet.Server.Ids.Search.{generate_room_id-unused}
use ynetserver_enet.Server.Ends.{
  Ends, Ends-if, Ends-weaken, Ends-result, Ends-send_text, Ends-send_error,
}
use ynetserver_enet.Server.Create.{
  new_room, add_room, create_checked, final_room_code, handle_room_creation,
}

-- The room under `code` is new, and its creator hosts it alone under an id that was free.
pub record Created (client : Client) (peer : Peer) (password : Bytes) (s s' : Server) : Type 0 where
  pub code : Bytes
  pub room : Room
  pub valid : is_valid_room_code code ≡ true
  pub absent : lookup code s.rooms ≡ none
  pub present : lookup code s'.rooms ≡ some room
  pub fresh : contains room.room_id s.used_room_ids ≡ false
  pub hosted : room.host ≡ peer
  pub alone : room.clients ≡ (peer, client.id) ∷ []
  pub locked : room.password ≡ password
  pub spoken : room.protocol ≡ client.protocol_version
  pub others : (c : Bytes) → code ≢ c → lookup c s'.rooms ≡ lookup c s.rooms

module _ ⦃io : Stream⦄ (client : Client) (peer : Peer) (password : Bytes) where
  add_room-Created :
      (code : Bytes) (w : World)
      → w.next_room_id < 65536
      → is_valid_room_code code ≡ true
      → lookup code w.rooms ≡ none
      → Ends (Created client peer password w.server) (add_room client peer code password w)
  unfolding add_room new_room
  add_room-Created code w below valid absent = elim (Option-cases (generate_room_id w.server)) [
    | inl n ↦ rw n (unfold Ends in tt)
    | inr ((id, s), e) ↦
        let (free, lo, same) = generate_room_id-unused w.server s id below e in
        let room : Room = new_room id code client peer password in
        let w₁ : World = record w { server = record s { rooms = insert code room s.rooms } } in
        let w₂ : World = set_client peer (record client { current_room = code; room_id = id }) w₁ in
        let rooms : w₂.rooms ≡ insert code room w.rooms =
          unfold set_client in ap (λ (t : Server). insert code room t.rooms) same in
        rw e (
          Ends-send_text (Created client peer password w.server) peer confirm_room_creation code w₂
            (record {
              code = code;
              room = room;
              valid = valid;
              absent = absent;
              present =
                  ground
                    (arith, rooms, lookup-insert code code room w.rooms, bytes_eq_iff code code);
              fresh = free;
              hosted = refl;
              alone = refl;
              locked = refl;
              spoken = refl;
              others = λ c other_code. elim (Bool-cases (bytes_eq code c)) [
                | inl same_code ↦ absurd (other_code ((bytes_eq_iff code c).0 same_code))
                | inr other ↦ ground (arith, rooms, lookup-insert code c room w.rooms)
              ];
            }))
  ]

  unfoldable pub Outcome : World → Server → Type 0
  Outcome w s = (s ≡ w.server) ⊎ Created client peer password w.server s

  pub create_checked-Outcome :
      (code : Bytes) (w : World)
      → w.next_room_id < 65536
      → Ends (Outcome w) (create_checked client peer code password w)
  unfolding create_checked Outcome
  create_checked-Outcome code w below =
      let P : Server → Type 0 = Outcome w in
      let refusal = λ (text : Bytes). Ends-send_error P peer text w (inl refl) in
      Ends-if P (not (is_valid_room_code code)) _ _ (λ _. refusal _)
        (λ valid.
          Ends-if P (has code w.rooms) _ _ (λ _. refusal _)
            (λ absent.
              Ends-weaken _ P _ (λ s h. inr h)
                (add_room-Created code w below (ground arith) (ground arith))))

-- A creation that returns, the next room id being a 16-bit number, has either left the server as
-- it was, or its sender now hosts, alone, a new room under a valid code that was free, with an id
-- that was free, the sender's protocol and the password that was asked for, and under every other
-- code nothing has changed.
pub handle_room_creation-outcome :
    ⦃io : Stream⦄ (client : Client) (peer : Peer) (room_code password : Bytes) (w w' : World)
    → w.next_room_id < 65536
    → handle_room_creation client peer room_code password w ≡ some w'
    → (w'.server ≡ w.server) ⊎ Created client peer password w.server w'.server
unfolding handle_room_creation final_room_code Outcome
handle_room_creation-outcome client peer [] password w w' below e =
    let (code, r) = generate_room_code w.random in
    Ends-result _ _ w'
      (create_checked-Outcome client peer password code (record w { random = r }) below) e
handle_room_creation-outcome client peer (c ∷ code) password w w' below e =
    Ends-result _ _ w' (create_checked-Outcome client peer password (c ∷ code) w below) e
