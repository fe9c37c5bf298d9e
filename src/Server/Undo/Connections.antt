-- ===== src/Server/Undo/Connections.antt =====
-- ynetserver.cpp: the connection of a peer and its disconnection, one after the other.
use ynetserver_enet.Base.{
  ℕ, ◌≤◌, ◌≡◌, ◌∙◌, refl, ap, [], none, some, false, nat_key, bytes_key, arith,
}
use ynetserver_enet.Base.Dict.{
  lookup, insert, assign, erase, contains, include, lookup-insert, lookup-assign, lookup-erase,
  contains-include, contains-exclude,
}
use ynetserver_enet.Stream.{Stream, Laws}
use ynetserver_enet.Message.{AnyMessage, connection, code_of, confirm_connection}
use ynetserver_enet.Message.Wire.Items.{IsValid}
use ynetserver_enet.Room.{Peer, Client}
use ynetserver_enet.Room.Code.{is_valid_room_code}
use ynetserver_enet.Server.{World, sends, emit, set_client, get_client_for_peer}
use ynetserver_enet.Server.Ids.{next_client, release_client_id}
use ynetserver_enet.Server.Ids.Search.{generate_client_id-total, generate_client_id-unused}
use ynetserver_enet.Server.Info.{Json}
use ynetserver_enet.Server.Invariant.{Inv}
use ynetserver_enet.Server.Leave.{forget_room, handle_room_leave}
use ynetserver_enet.Server.Run.{
  connect, disconnect, create_client_for_peer, on_connect, on_disconnect, step,
}
use ynetserver_enet.Server.Send.{send_message, reliable}
use ynetserver_enet.Server.Yields.{send_in-fits, code_small}
use ynetserver_enet.Server.Undo.{SameTables, invalid-absent}

abbrev newcomer : ℕ → ℕ → Client
newcomer id protocol = record {
  id = id;
  current_room = [];
  room_id = 0;
  protocol_version = protocol;
  debugging = false;
}

-- The world with the client of a new peer.
abbrev connected : Peer → ℕ → ℕ → World → World
connected peer protocol id w =
    emit (sends peer 0 reliable (connection (code_of confirm_connection) id)) (record w {
      server = record (w.server) {
        used_client_ids = include id w.used_client_ids;
        next_client_id = next_client id;
        clients = insert peer (newcomer id protocol) w.clients;
      };
    })

-- The world without it again.
abbrev departed : Peer → Client → World → World
departed peer client w =
    let w₁ : World =
      set_client peer (forget_room client)
        (record w { server = release_client_id client.id w.server }) in
    record w₁ { server = record (w₁.server) { clients = erase peer w₁.clients } }

on_disconnect-departed :
    ⦃io : Stream⦄ (client : Client) (peer : Peer) (w : World)
    → lookup client.current_room w.rooms ≡ none
    → on_disconnect client peer w ≡ some (departed peer client w)
unfolding on_disconnect handle_room_leave release_client_id
on_disconnect-departed client peer w nowhere = rw (nowhere, handle_room_leave) refl

module _ ⦃io : Stream⦄ ⦃json : Json⦄ (laws : Laws io) (peer : Peer) (protocol : ℕ) (w : World)
    (inv : Inv w.server) where
  connects :
      (free : ℕ)
      → 1000 ≤ free
      → free ≤ 65535
      → contains free w.used_client_ids ≡ false
      → (id : ℕ) × (contains id w.used_client_ids ≡ false)
        × (step (connect peer protocol) w ≡ some (connected peer protocol id w))
  unfolding step on_connect create_client_for_peer send_message
  connects free lo hi unused =
      let last = inv.next_client.1 in
      let (id, s, e) = generate_client_id-total w.server free last lo hi unused in
      let (fresh, from, to, same) = generate_client_id-unused w.server s id last e in
      let m : AnyMessage = connection (code_of confirm_connection) id in
      let valid : IsValid m = (code_small confirm_connection, (omega arith, tt)) in
      (
        id,
        fresh,
        rw (e ∙ ap (λ t. some (id, t)) same)
            (send_in-fits laws 65532 peer m reliable 0 _ valid (omega arith)),
      )

  departs :
      (id : ℕ)
      → step (disconnect peer) (connected peer protocol id w)
        ≡ some (departed peer (newcomer id protocol) (connected peer protocol id w))
  unfolding step get_client_for_peer emit
  departs id =
      let c : Client = newcomer id protocol in
      let known : lookup peer (insert peer c w.clients) ≡ some c =
        ground (arith, lookup-insert peer peer c w.clients) in
      rw known (
        on_disconnect-departed c peer (connected peer protocol id w)
          (invalid-absent [] w.server inv (unfold is_valid_room_code in refl)))

  departed-SameTables :
      (id : ℕ)
      → lookup peer w.clients ≡ none
      → contains id w.used_client_ids ≡ false
      → SameTables w.server
          (departed peer (newcomer id protocol) (connected peer protocol id w)).server
  unfolding emit set_client release_client_id
  departed-SameTables id new fresh =
      let c : Client = newcomer id protocol in
      let known : lookup peer (insert peer c w.clients) ≡ some c =
        ground (arith, lookup-insert peer peer c w.clients) in
      record {
        clients = λ p.
            let all = insert peer c w.clients in
            ground (
              arith,
              lookup-erase peer p (assign peer (forget_room c) all),
              lookup-assign peer p (forget_room c) c all known,
              lookup-insert peer p c w.clients,
            );
        rooms = λ code. refl;
        client_ids = λ k. ground (
          arith,
          contains-exclude id k (include id w.used_client_ids),
          contains-include id k w.used_client_ids,
        );
        room_ids = λ k. refl;
      }

  -- On streams that keep their laws, in a state that satisfies the invariant, where a client id is
  -- free and the peer is unknown, the server serves the peer's connection and then its
  -- disconnection, and has the same clients, rooms and used ids afterwards as before.
  pub disconnect-connect :
      (free : ℕ)
      → 1000 ≤ free
      → free ≤ 65535
      → contains free w.used_client_ids ≡ false
      → lookup peer w.clients ≡ none
      → (w₁ w₂ : World) × (step (connect peer protocol) w ≡ some w₁)
        × (step (disconnect peer) w₁ ≡ some w₂)
        × SameTables w.server w₂.server
  disconnect-connect free lo hi unused new =
      let (id, fresh, ran) = connects free lo hi unused in
      (connected peer protocol id w, _, ran, departs id, departed-SameTables id new fresh)
