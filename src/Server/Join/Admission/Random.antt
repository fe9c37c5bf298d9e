-- ===== src/Server/Join/Admission/Random.antt =====
-- ynetserver.cpp: the room that `handleRoomJoin` picks when it is given no code.
use ynetserver_enet.Base.{
  ℕ, zero, suc, ◌%◌, ◌≤◌, ◌<◌, ◌≡◌, ◌⊎◌, refl, sym, ap, ◌∙◌, subst, [], ◌∷◌, List, some, true,
  false, Bytes, bytes, nat_key, bytes_key, is_empty, length, get_elem?, inl, inr, arith, ◌||◌,
  bytes_eq, bytes_eq_iff,
}
use ynetserver_enet.Base.Dict.{Dict, lookup}
use ynetserver_enet.Base.Distinct.{Distinct, keep-lookup}
use ynetserver_enet.Stream.{Stream}
use ynetserver_enet.Room.{Peer, Room, Client}
use ynetserver_enet.Room.Code.{draw}
use ynetserver_enet.Server.{Server, World, set_room, set_client}
use ynetserver_enet.Server.Send.{send_error}
use ynetserver_enet.Server.Ends.{
  Ends, Ends-if, Ends-case, Ends-weaken, Ends-result, Ends-send_error,
}
use ynetserver_enet.Server.Join.{
  is_joinable, matching_rooms, element, enter_room, join_random, handle_room_join,
}
use ynetserver_enet.Server.Join.Admission.{Member, after_entry, after_entry-Member, enter_room-Ends}
use ynetserver_enet.Server.Invariant.{Inv, Inv-hosted}

element-get : (xs : List Bytes) (i : ℕ) → i < length xs → get_elem? xs i ≡ some (element xs i)
unfolding element
element-get [] i h = absurd (omega arith)
element-get (x ∷ xs) zero h = refl
element-get (x ∷ xs) (suc i) h = element-get xs i (omega arith)

not_empty : (xs : List Bytes) → is_empty xs ≡ false → 1 ≤ length xs
not_empty [] e = absurd (ground arith)
not_empty (x ∷ xs) e = omega arith

-- A position within the matching rooms stands for a room that passes the test.
matching-joinable :
    (password : Bytes) (protocol : ℕ) (rooms : Dict Bytes Room) (i : ℕ)
    → Distinct rooms
    → i < length (matching_rooms password protocol rooms)
    → (room : Room) × (lookup (element (matching_rooms password protocol rooms) i) rooms
        ≡ some room)
      × (is_joinable password protocol room ≡ true)
unfolding matching_rooms
matching-joinable password protocol rooms i distinct h =
    keep-lookup (is_joinable password protocol) rooms i
      (element (matching_rooms password protocol rooms) i) distinct
      (element-get (matching_rooms password protocol rooms) i h)

-- What a room is like that a client gets into without a code.
pub record Suits (client : Client) (password : Bytes) (room : Room) : Type 0 where
  pub same_protocol : room.protocol ≡ client.protocol_version
  pub open_or_same : (room.password ≡ []) ⊎ (room.password ≡ password)
  pub not_private : room.is_private ≡ false
  pub has_space : length room.clients < room.max_players

-- No password, or the given one.
fitting :
    (own asked : Bytes) → (is_empty own || bytes_eq own asked) ≡ true → (own ≡ []) ⊎ (own ≡ asked)
fitting [] asked h = inl refl
fitting (c ∷ own) asked h = inr ((bytes_eq_iff (c ∷ own) asked).0 (ground arith))

joinable-Suits :
    (client : Client) (password : Bytes) (room : Room)
    → is_joinable password client.protocol_version room ≡ true
    → Suits client password room
unfolding is_joinable
joinable-Suits client password room h = record {
  same_protocol = ground arith;
  open_or_same = fitting room.password password (ground arith);
  not_private = ground arith;
  has_space = ground arith;
}

unfoldable pub Picked : Client → Peer → Bytes → World → Server → Type 0
Picked client peer password w s =
    (s ≡ w.server)
    ⊎ ((code : Bytes) × (room : Room) × (lookup code w.rooms ≡ some room)
        × Suits client password room
        × (s ≡ after_entry client peer code room w))

-- Only the server matters for the state after the entry.
entry_server :
    (client : Client) (peer : Peer) (code : Bytes) (room : Room) (w v : World)
    → v.server ≡ w.server
    → after_entry client peer code room v ≡ after_entry client peer code room w
unfolding after_entry set_room set_client
entry_server client peer code room w v e =
    ap (λ (s : Server). after_entry client peer code room (record w { server = s })) e

pub join_random-Picked :
    ⦃io : Stream⦄ (client : Client) (peer : Peer) (password : Bytes) (w : World)
    → Distinct w.rooms
    → Ends (Picked client peer password w) (join_random client peer password w)
unfolding join_random draw Picked
join_random-Picked client peer password w distinct =
    let P : Server → Type 0 = Picked client peer password w in
    let matching = matching_rooms password client.protocol_version w.rooms in
    let k : ℕ = w.random 0 % length matching in
    let selected : Bytes = element matching k in
    let w' : World = record w { random = λ i. w.random (suc i) } in
    let gone = send_error peer (bytes "Selected room no longer available") w' in
    let enter = λ (room : Room). enter_room client peer selected room w' in
    Ends-if P (is_empty matching) _ _
      (λ _. Ends-send_error P peer (bytes "No available rooms found") w (inl refl))
      (λ found.
        Ends-case P (lookup selected w.rooms) gone enter
          (λ _. Ends-send_error P peer _ w' (inl refl))
          (λ room here.
            let (r, there, joinable) =
              matching-joinable password client.protocol_version w.rooms k distinct
                (omega (arith, not_empty matching found)) in
            let same : r ≡ room = ground arith in
            Ends-weaken _ P _
              (λ s h. inr (
                selected,
                room,
                here,
                joinable-Suits client password room (
                    subst (λ q. is_joinable password client.protocol_version q ≡ true) same
                      joinable),
                h ∙ entry_server client peer selected room w w' refl,
              ))
              (enter_room-Ends client peer selected room w')))

-- In a state that satisfies the invariant, a join without a code by a known client that returns
-- has either left the server as it was, or there is a room that is not private, has the client's
-- protocol, space, and no password or the given one, and now the peer is a member of it, host and
-- limit are the same, its size is within the limit, and the client knows the room.
pub handle_room_join-random :
    ⦃io : Stream⦄ (client : Client) (peer : Peer) (password : Bytes) (w w' : World)
    → Inv w.server
    → lookup peer w.clients ≡ some client
    → handle_room_join client peer [] password w ≡ some w'
    → (w'.server ≡ w.server)
      ⊎ ((code : Bytes) × (room : Room) × (lookup code w.rooms ≡ some room)
          × Suits client password room
          × Member client peer code room w'.server)
unfolding handle_room_join Picked
handle_room_join-random client peer password w w' inv known e =
    elim (Ends-result _ _ w' (join_random-Picked client peer password w inv.rooms.distinct) e) [
      | inl same ↦ inl same
      | inr (code, room, here, suits, after) ↦
          let hosted = Inv-hosted code room inv here in
          inr (
            code,
            room,
            here,
            suits,
            subst (Member client peer code room) (sym after)
                (after_entry-Member client peer code room w hosted known here suits.has_space),
          )
    ]
