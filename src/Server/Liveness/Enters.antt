-- ===== src/Server/Liveness/Enters.antt =====
-- ynetserver.cpp: the handlers that create and join rooms, under `Returns`.
use ynetserver_enet.Server.Invariant.{Inv-hosted}
use ynetserver_enet.Room.Code.Valid.{valid_length}
use ynetserver_enet.Base.{
  ℕ, ◌≤◌, ◌≡◌, [], ◌∷◌, some, true, not, Bytes, is_empty, length, nat_key, bytes_key, bytes_eq,
  arith, ◌==◌, if-cases, option-cases,
}
use ynetserver_enet.Base.Dict.{Dict, lookup, has, put, lookup-put}
use ynetserver_enet.Stream.{Stream, Laws, total}
use ynetserver_enet.Message.{
  MessageType, code_of, room_joined, confirm_room_join, confirm_room_creation, player_joined,
}
use ynetserver_enet.Message.Wire.Items.{items, IsValid, string_items, total-append}
use ynetserver_enet.Text.{to_string}
use ynetserver_enet.Text.Decimal.{length-to_string}
use ynetserver_enet.Room.{Peer, Room, Client}
use ynetserver_enet.Room.Code.{draw, generate_room_code, is_valid_room_code}
use ynetserver_enet.Server.{World}
use ynetserver_enet.Server.Create.{create_checked, add_room, final_room_code, handle_room_creation}
use ynetserver_enet.Server.Ids.Search.{generate_room_id-total}
use ynetserver_enet.Server.Join.{
  touch_host, player_ids, json_players, enter_room, join_random, join_found, join_named,
  matching_rooms, element, at_capacity, first_open, handle_room_join, handle_join_or_create_room,
  handle_join_or_create_room_random,
}
use ynetserver_enet.Server.Join.Admission.{length-put, touch_host-hosted}
use ynetserver_enet.Server.Yields.{
  Returns, Yields-bind, Yields-send_text, Yields-send_error, Yields-for_each, send_in-fits,
  total_of_string, padding-small, code_small, AllFit-join, string_items-AllFit,
}
use ynetserver_enet.Server.Send.{for_each, send_error, send_message, send_text, reliable}
use ynetserver_enet.Server.Liveness.{Live, SmallIds}
use ynetserver_enet.Server.Liveness.Players.{json_players-le, put-SmallIds}
use ynetserver_enet.Server.Liveness.Sends.{Returns-known}

-- A short code and a list of players that fits.
confirmation-IsValid :
    (t : MessageType) (code players : Bytes)
    → length code ≤ 6
    → length players ≤ 33000
    → IsValid (room_joined (code_of t) code players)
      × (total (items (room_joined (code_of t) code players)) ≤ 65532)
confirmation-IsValid t code players short few = (
  (
    code_small t,
    AllFit-join (string_items code) (string_items players) (string_items-AllFit code (omega arith))
        (string_items-AllFit players (omega arith)),
  ),
  omega (
    arith,
    total-append (string_items code) (string_items players),
    total_of_string code,
    total_of_string players,
    padding-small (length code),
    padding-small (length players),
  ),
)

module _ ⦃io : Stream⦄ (laws : Laws io) (client : Client) (peer : Peer) where
  refuses : (s : Bytes) (w : World) → length s ≤ 60000 → Returns (send_error peer s w)
  refuses s w short = Yields-send_error laws (λ w. Unit) peer s w short tt

  confirms :
      (code players : Bytes) (w : World)
      → length code ≤ 6
      → length players ≤ 33000
      → Returns
          (send_message peer (room_joined (code_of confirm_room_join) code players) reliable 0 w)
  unfolding send_message
  confirms code players w short few =
      let (valid, fits) = confirmation-IsValid confirm_room_join code players short few in
      Returns-known _ _ (send_in-fits laws 65532 peer _ reliable 0 w valid fits)

  announces :
      (members : Dict Peer ℕ) (w : World)
      → client.id ≤ 65535
      → Returns (for_each (λ p. send_text p player_joined (to_string client.id)) peer members w)
  announces members w small =
      Yields-for_each laws (λ w. Unit) _
        (λ p u _.
          Yields-send_text laws (λ w. Unit) p player_joined (to_string client.id) u
            (omega (arith, length-to_string client.id 5 (omega arith) (omega arith))) tt)
        peer members w tt

  pub enter_room-Returns :
      (code : Bytes) (room : Room) (w : World)
      → client.id ≤ 65535
      → length code ≤ 6
      → has room.host room.clients ≡ true
      → length room.clients ≤ 4000
      → SmallIds room.clients
      → Returns (enter_room client peer code room w)
  unfolding enter_room
  enter_room-Returns code room w small short hosted few ids =
      let r : Room = record room { clients = put peer client.id room.clients } in
      let still : has r.host r.clients ≡ true =
        ground (arith, lookup-put peer room.host client.id room.clients) in
      let same : touch_host r ≡ r = touch_host-hosted r still in
      let players : length (json_players (player_ids r)) ≤ 33000 = omega (
        arith,
        json_players-le r (put-SmallIds peer client.id room.clients (omega arith) ids),
        length-put peer client.id room.clients,
        few,
      ) in
      rw same (
        Yields-bind (λ w. Unit) (λ w. Unit) _ _
          (confirms code (json_players (player_ids r)) _ short players)
          (λ v _. announces r.clients v small))

  -- Every room of the server has a valid code and its host among its members.
  enters :
      (code : Bytes) (room : Room) (w : World)
      → client.id ≤ 65535
      → Live w.server
      → lookup code w.rooms ≡ some room
      → Returns (enter_room client peer code room w)
  enters code room w small live here =
      let valid = live.inv.rooms.valid code room here in
      let hosted = Inv-hosted code room live.inv here in
      enter_room-Returns code room w small (valid_length code valid) hosted
        (live.small code room here).few (live.small code room here).ids

  join_random-Returns :
      (password : Bytes) (w : World)
      → client.id ≤ 65535
      → Live w.server
      → Returns (join_random client peer password w)
  unfolding join_random
  join_random-Returns password w small live =
      let matching = matching_rooms password client.protocol_version w.rooms in
      let (k, r) = draw (length matching) w.random in
      if-cases Returns (is_empty matching) _ _ (λ _. refuses _ w (omega arith))
        (λ _.
          option-cases Returns (lookup (element matching k) w.rooms) _ _
            (λ _. refuses _ (record w { random = r }) (omega arith))
            (λ room here.
              enters (element matching k) room (record w { random = r }) small live here))

  join_found-Returns :
      (code password : Bytes) (room : Room) (w : World)
      → client.id ≤ 65535
      → Live w.server
      → lookup code w.rooms ≡ some room
      → Returns (join_found client peer code password room w)
  unfolding join_found
  join_found-Returns code password room w small live here =
      if-cases Returns (not (room.protocol == client.protocol_version)) _ _
        (λ _. refuses _ w (omega arith))
        (λ _.
          if-cases Returns (not (bytes_eq room.password password)) _ _
            (λ _. refuses _ w (omega arith))
            (λ _.
              if-cases Returns room.is_private _ _ (λ _. refuses _ w (omega arith))
                (λ _.
                  if-cases Returns (at_capacity room) _ _ (λ _. refuses _ w (omega arith))
                    (λ _. enters code room w small live here))))

  pub handle_room_join-Returns :
      (code password : Bytes) (w : World)
      → client.id ≤ 65535
      → Live w.server
      → Returns (handle_room_join client peer code password w)
  unfolding handle_room_join join_named
  handle_room_join-Returns code password w small live =
      if-cases Returns (is_empty code) _ _ (λ _. join_random-Returns password w small live)
        (λ _.
          option-cases Returns (lookup code w.rooms) _ _ (λ _. refuses _ w (omega arith))
            (λ room here. join_found-Returns code password room w small live here))

  create_checked-Returns :
      (code password : Bytes) (w : World)
      → Live w.server
      → Returns (create_checked client peer code password w)
  unfolding create_checked add_room
  create_checked-Returns code password w live =
      if-cases Returns (not (is_valid_room_code code)) _ _ (λ _. refuses _ w (omega arith))
        (λ valid.
          if-cases Returns (has code w.rooms) _ _ (λ _. refuses _ w (omega arith))
            (λ _.
              let (id, s, e) =
                generate_room_id-total w.server live.room_id live.inv.next_room live.in_range
                  live.unused in
              rw e (
                Yields-send_text laws (λ w. Unit) peer confirm_room_creation code _
                  (omega (arith, valid_length code (ground arith))) tt)))

  pub handle_room_creation-Returns :
      (code password : Bytes) (w : World)
      → Live w.server
      → Returns (handle_room_creation client peer code password w)
  unfolding handle_room_creation final_room_code
  handle_room_creation-Returns [] password w live =
      let (code, r) = generate_room_code w.random in
      create_checked-Returns code password (record w { random = r }) live
  handle_room_creation-Returns (c ∷ code) password w live =
      create_checked-Returns (c ∷ code) password w live

  pub handle_join_or_create_room-Returns :
      (code password : Bytes) (w : World)
      → client.id ≤ 65535
      → Live w.server
      → Returns (handle_join_or_create_room client peer code password w)
  unfolding handle_join_or_create_room final_room_code
  handle_join_or_create_room-Returns [] password w small live =
      let (code, r) = generate_room_code w.random in
      let w' : World = record w { random = r } in
      if-cases Returns (has code w.rooms) _ _
        (λ _. handle_room_join-Returns code password w' small live)
        (λ _. handle_room_creation-Returns code password w' live)
  handle_join_or_create_room-Returns (c ∷ code) password w small live =
      if-cases Returns (has (c ∷ code) w.rooms) _ _
        (λ _. handle_room_join-Returns (c ∷ code) password w small live)
        (λ _. handle_room_creation-Returns (c ∷ code) password w live)

  pub handle_join_or_create_room_random-Returns :
      (w : World)
      → client.id ≤ 65535
      → Live w.server
      → Returns (handle_join_or_create_room_random client peer w)
  unfolding handle_join_or_create_room_random
  handle_join_or_create_room_random-Returns w small live =
      let (code, r) = generate_room_code w.random in
      option-cases Returns (first_open client.protocol_version w.rooms) _ _
        (λ _. handle_room_creation-Returns code [] (record w { random = r }) live)
        (λ found _. handle_room_join-Returns found [] w small live)
