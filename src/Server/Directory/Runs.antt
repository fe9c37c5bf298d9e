-- ===== src/Server/Directory/Runs.antt =====
-- ynetserver.cpp: the events of `run` as steps of the directory.
use ynetserver_enet.Base.{
  ℕ, ◌≡◌, ◌⊎◌, refl, ap, sym, subst, Option, some, Bytes, bytes_key, nat_key, inl, inr,
  Option-cases, ◌>>=◌,
}
use ynetserver_enet.Base.Dict.{lookup}
use ynetserver_enet.Stream.{Stream}
use ynetserver_enet.Room.{Peer, Client}
use ynetserver_enet.Server.{Server, World, get_client_for_peer}
use ynetserver_enet.Server.Ids.{generate_client_id, release_client_id}
use ynetserver_enet.Server.Ids.Search.{generate_client_id-unused}
use ynetserver_enet.Server.Info.{Json}
use ynetserver_enet.Server.Dispatch.{handle_received_data}
use ynetserver_enet.Server.Run.{
  Event, connect, receive, disconnect, disconnect_timeout, create_client_for_peer, on_connect,
  on_disconnect, step,
}
use ynetserver_enet.Server.Ends.{Ends, Ends-some, Ends-bind, Ends-result, Ends-send_message}
use ynetserver_enet.Server.Invariant.{Inv}
use ynetserver_enet.Server.Directory.{protocols, directory, Step, Refines}
use ynetserver_enet.Server.Directory.Enters.{Refines-same}
use ynetserver_enet.Server.Directory.Leaves.{handle_room_leave-Refines}
use ynetserver_enet.Server.Directory.Receives.{handle_received_data-Refines}

module _ ⦃io : Stream⦄ where
  on_connect-Refines :
      (peer : Peer) (protocol : ℕ) (w : World)
      → Inv w.server
      → Ends (λ s. Refines (protocols w.clients) w.rooms s.rooms) (on_connect peer protocol w)
  unfolding on_connect create_client_for_peer
  on_connect-Refines peer protocol w inv = elim (Option-cases (generate_client_id w.server)) [
    | inl n ↦ rw n (unfold Ends in tt)
    | inr ((id, s), e) ↦
        let (fresh, lo, hi, same) = generate_client_id-unused w.server s id inv.next_client.1 e in
        let P : Server → Type 0 = λ t. Refines (protocols w.clients) w.rooms t.rooms in
        let rooms : s.rooms ≡ w.rooms = ap (λ (t : Server). t.rooms) same in
        rw e (
          Ends-send_message P peer _ _ _ _ (
            subst (λ d. Refines (protocols w.clients) w.rooms d) (sym rooms)
              (Refines-same (protocols w.clients) w.rooms)))
  ]

  on_disconnect-Refines :
      (client : Client) (peer : Peer) (w : World)
      → Ends (λ s. Refines (protocols w.clients) w.rooms s.rooms) (on_disconnect client peer w)
  unfolding on_disconnect release_client_id
  on_disconnect-Refines client peer w =
      let P : Server → Type 0 = λ s. Refines (protocols w.clients) w.rooms s.rooms in
      Ends-bind P P _ _
        (handle_room_leave-Refines (protocols w.clients) client peer
          (record w { server = release_client_id client.id w.server }))
        (λ w₁ _ h. Ends-some P _ h)

module _ ⦃io : Stream⦄ ⦃json : Json⦄ where
  with_client-Refines :
      (f : Client → World → Option World) (peer : Peer) (w : World)
      → ((c : Client)
          → lookup peer w.clients ≡ some c
          → Ends (λ s. Refines (protocols w.clients) w.rooms s.rooms) (f c w))
      → Ends
          (λ s. Refines (protocols w.clients) w.rooms s.rooms)
          (do c ← get_client_for_peer peer w; f c w)
  unfolding get_client_for_peer
  with_client-Refines f peer w keep = elim (Option-cases (lookup peer w.clients)) [
    | inl n ↦ rw n (unfold Ends in tt)
    | inr (c, e) ↦ rw e (keep c e)
  ]

  step-Ends :
      (e : Event) (w : World)
      → Inv w.server
      → Ends (λ s. Refines (protocols w.clients) w.rooms s.rooms) (step e w)
  unfolding step
  step-Ends (connect peer protocol) w inv = on_connect-Refines peer protocol w inv
  step-Ends (receive peer b) w inv =
      with_client-Refines (λ c. handle_received_data c peer b) peer w
        (λ c e. handle_received_data-Refines (protocols w.clients) c peer b w (rw e refl) inv)
  step-Ends (disconnect peer) w inv =
      with_client-Refines (λ c. on_disconnect c peer) peer w (λ c _. on_disconnect-Refines c peer w)
  step-Ends (disconnect_timeout peer) w inv =
      with_client-Refines (λ c. on_disconnect c peer) peer w (λ c _. on_disconnect-Refines c peer w)

  -- In a state that satisfies the invariant, an event that the server survives leaves the abstract
  -- directory of rooms as it was, or takes it one step on: a room opened under a free valid code,
  -- by its host alone, in the protocol that the server knows of this peer; a public room with
  -- space entered by a peer that the server knows to speak its protocol; a guest gone; a host gone
  -- and a member in its place, where the room allows it; a room closed; or a room's settings
  -- changed, not its host nor its members nor its protocol. Under every other code the directory
  -- stays the same.
  pub step-refines :
      (e : Event) (w w' : World)
      → Inv w.server
      → step e w ≡ some w'
      → ((c : Bytes) → directory w'.rooms c ≡ directory w.rooms c)
        ⊎ Step (protocols w.clients) (directory w.rooms) (directory w'.rooms)
  unfolding Refines
  step-refines e w w' inv ran =
      Ends-result (λ s. Refines (protocols w.clients) w.rooms s.rooms) _ w' (step-Ends e w inv) ran
