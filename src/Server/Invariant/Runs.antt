-- ===== src/Server/Invariant/Runs.antt =====
-- ynetserver.cpp: the invariant and `run`.
use ynetserver_enet.Base.{
  ℕ, ◌≡◌, refl, sym, subst, [], ◌∷◌, List, Option, none, some, false, nat_key, bytes_key,
  Option-cases, inl, inr, arith, ◌>>=◌,
}
use ynetserver_enet.Base.Dict.{Dict, lookup, lookup-erase, insert, erase, include}
use ynetserver_enet.Stream.{Stream}
use ynetserver_enet.Room.{Peer, Client}
use ynetserver_enet.Room.Code.{Random}
use ynetserver_enet.Server.{Server, World, start, get_client_for_peer}
use ynetserver_enet.Server.Ids.{next_client, generate_client_id, release_client_id}
use ynetserver_enet.Server.Ids.Search.{generate_client_id-unused}
use ynetserver_enet.Server.Info.{Json}
use ynetserver_enet.Server.Dispatch.{handle_received_data}
use ynetserver_enet.Server.Run.{
  Event, connect, receive, disconnect, disconnect_timeout, create_client_for_peer, on_connect,
  on_disconnect, step, run,
}
use ynetserver_enet.Server.Ends.{Ends, Ends-some, Ends-bind, Ends-result, Ends-send_message}
use ynetserver_enet.Server.Invariant.{Inv}
use ynetserver_enet.Server.Invariant.Clients.{
  SameIds, id_of, ClientsOk-insert, ClientsOk-erase, ClientsOk-same,
}
use ynetserver_enet.Server.Invariant.Stable.{Stable, Inv-Stable, Stable-Inv}
use ynetserver_enet.Server.Invariant.Leaves.{handle_room_leave-Stable}
use ynetserver_enet.Server.Invariant.Receives.{handle_received_data-Stable}

pub start-Inv : (r : Random) → Inv (start r).server
unfolding lookup
start-Inv r = record {
  rooms = record {
    distinct = tt;
    keyed = λ c q e. absurd (ground arith);
    valid = λ c q e. absurd (ground arith);
    hosted = λ c q e. absurd (ground arith);
    id_used = λ c q e. absurd (ground arith);
    id_distinct = λ c d q q' e e' i. absurd (ground arith);
  };
  clients = record {
    id_used = λ p c e. absurd (ground arith);
    id_range = λ p c e. absurd (ground arith);
    id_distinct = λ p q c d e f i. absurd (ground arith);
  };
  next_room = omega arith;
  next_client = (omega arith, omega arith);
}

-- Removing a peer from two tables with the same ids.
erase-SameIds : (p : Peer) (a b : Dict Peer Client) → SameIds a b → SameIds (erase p a) (erase p b)
erase-SameIds p a b same q = ground (arith, lookup-erase p q a, lookup-erase p q b, same q)

module _ ⦃io : Stream⦄ where
  on_connect-Inv :
      (peer : Peer) (protocol : ℕ) (w : World)
      → Inv w.server
      → Ends Inv (on_connect peer protocol w)
  unfolding on_connect create_client_for_peer
  on_connect-Inv peer protocol w inv = elim (Option-cases (generate_client_id w.server)) [
    | inl n ↦ rw n (unfold Ends in tt)
    | inr ((id, s), e) ↦
        let (fresh, lo, hi, same) = generate_client_id-unused w.server s id inv.next_client.1 e in
        let c : Client = record {
          id = id;
          current_room = [];
          room_id = 0;
          protocol_version = protocol;
          debugging = false;
        } in
        let added : Inv (record (w.server) {
          used_client_ids = include id w.used_client_ids;
          next_client_id = next_client id;
          clients = insert peer c w.clients;
        }) =
          record {
            rooms = inv.rooms;
            clients = ClientsOk-insert w.clients peer c inv.clients fresh (lo, hi);
            next_room = inv.next_room;
            next_client = (omega arith, omega arith);
          } in
        let w₁ : World = record w { server = record s { clients = insert peer c s.clients } } in
        let inv₁ : Inv w₁.server =
          subst (λ (t : Server). Inv (record t { clients = insert peer c t.clients })) (sym same)
            added in
        rw e (Ends-send_message Inv peer _ _ _ w₁ inv₁)
  ]

  on_disconnect-Inv :
      (client : Client) (peer : Peer) (w : World)
      → lookup peer w.clients ≡ some client
      → Inv w.server
      → Ends Inv (on_disconnect client peer w)
  unfolding on_disconnect release_client_id
  on_disconnect-Inv client peer w here inv =
      let s₁ : Server = release_client_id client.id w.server in
      let known : id_of peer w.clients ≡ some client.id = ground arith in
      let before : Stable s₁ none s₁ = record {
        rooms = inv.rooms;
        ids = λ p. refl;
        used = refl;
        next_client = refl;
        next_room = inv.next_room;
      } in
      Ends-bind (Stable s₁ none) Inv _ _
        (handle_room_leave-Stable client peer (record w { server = s₁ }) known before)
        (λ w₁ _ st. Ends-some Inv _ (record {
          rooms = st.rooms;
          clients = rw st.used (
              ClientsOk-same (ClientsOk-erase w.clients peer client inv.clients known)
                (erase-SameIds peer w₁.clients w.clients st.ids));
          next_room = st.next_room;
          next_client = rw st.next_client inv.next_client;
        }))

module _ ⦃io : Stream⦄ ⦃json : Json⦄ where
  with_client-Inv :
      (f : Client → World → Option World) (peer : Peer) (w : World)
      → ((c : Client) → lookup peer w.clients ≡ some c → Ends Inv (f c w))
      → Ends Inv (do c ← get_client_for_peer peer w; f c w)
  unfolding get_client_for_peer
  with_client-Inv f peer w keep = elim (Option-cases (lookup peer w.clients)) [
    | inl n ↦ rw n (unfold Ends in tt)
    | inr (c, e) ↦ rw e (keep c e)
  ]

  pub step-Inv : (e : Event) (w : World) → Inv w.server → Ends Inv (step e w)
  unfolding step
  step-Inv (connect peer protocol) w inv = on_connect-Inv peer protocol w inv
  step-Inv (receive peer b) w inv =
      with_client-Inv (λ c. handle_received_data c peer b) peer w
        λ c here.
          let known : id_of peer w.clients ≡ some c.id = ground arith in
          let st = handle_received_data-Stable c peer b w known (Inv-Stable inv) in weaken _ st
    where
      weaken : (m : Option World) → Ends (Stable w.server none) m → Ends Inv m
      weaken none st = unfold Ends in tt
      weaken (some v) st = Ends-some Inv v (Stable-Inv inv (Ends-result _ _ v st refl))
  step-Inv (disconnect peer) w inv =
      with_client-Inv (λ c. on_disconnect c peer) peer w
        λ c here. on_disconnect-Inv c peer w here inv
  step-Inv (disconnect_timeout peer) w inv =
      with_client-Inv (λ c. on_disconnect c peer) peer w
        λ c here. on_disconnect-Inv c peer w here inv

  run-Ends : (es : List Event) (w : World) → Inv w.server → Ends Inv (run es w)
  unfolding run
  run-Ends [] w inv = Ends-some Inv w inv
  run-Ends (e ∷ es) w inv =
      Ends-bind Inv Inv (step e w) (run es) (step-Inv e w inv) (λ w' _ inv'. run-Ends es w' inv')

  -- After any events that the server survives from its start, the invariant holds: no room code
  -- stands twice; each room stands under its own valid code, its host is a member, and its id is
  -- marked as used and is no other room's; each client has an id from 1000 to 65535 that is marked
  -- as used and is no other client's.
  pub run-Inv :
      (r : Random) (es : List Event) (w : World) → run es (start r) ≡ some w → Inv w.server
  run-Inv r es w e = Ends-result Inv _ w (run-Ends es (start r) (start-Inv r)) e
