-- ===== src/Server/Directory/Receives.antt =====
-- ynetserver.cpp: settings and whole messages as steps of the directory.
use ynetserver_enet.Base.{
  refl, sym, ap, ◌∙◌, Bytes, bytes_eq, bytes_eq_iff, bytes_key, nat_key, inl, inr, arith,
  Bool-cases, some, length, ◌≡◌,
}
use ynetserver_enet.Base.Dict.{lookup}
use ynetserver_enet.Stream.{Stream}
use ynetserver_enet.Room.{Peer, Client}
use ynetserver_enet.Server.{Server, World}
use ynetserver_enet.Server.Info.{Json}
use ynetserver_enet.Server.Dispatch.{handle_received_data}
use ynetserver_enet.Server.Ends.{Ends}
use ynetserver_enet.Server.Ends.Receives.{Handlers, handle_received_data-Ends}
use ynetserver_enet.Server.Settings.Hosts.{Guarded, settings-Guarded}
use ynetserver_enet.Server.Invariant.{Inv}
use ynetserver_enet.Server.Directory.{Protocols, seat, seat_of, configures, Refines}
use ynetserver_enet.Server.Directory.Enters.{
  Refines-same, handle_room_creation-Refines, handle_room_join-Refines,
  handle_join_or_create_room-Refines, handle_join_or_create_room_random-Refines,
}
use ynetserver_enet.Server.Directory.Leaves.{handle_room_leave-Refines, handle_kick_client-Refines}

Guarded-Refines :
    (speaks : Protocols) (client : Client) (peer : Peer) (w w' : World)
    → Guarded client peer w w'
    → Refines speaks w.rooms w'.rooms
unfolding Refines
Guarded-Refines speaks client peer w w' g = elim (g.rooms client.current_room) [
  | inl same ↦ inl (λ c. elim (g.rooms c) [
    | inl e ↦ ap seat_of e
    | inr (r, r', here, was, is, hosts, alike) ↦
        ap (λ k. seat_of (lookup k w'.rooms)) here
        ∙ (ap seat_of same ∙ ap (λ k. seat_of (lookup k w.rooms)) (sym here))
  ])
  | inr (r, r', here, was, is, hosts, alike) ↦
      let (id, code, host, members, protocol) = alike in
      inr (
        configures client.current_room (seat r) (seat r') (rw was refl) host
          (λ q. ap (λ m. lookup q m) members) (ap length members) protocol
          (λ c. elim (Bool-cases (bytes_eq client.current_room c)) [
            | inl same ↦ rw same (
                ap (λ k. seat_of (lookup k w'.rooms))
                  (sym ((bytes_eq_iff client.current_room c).0 same))
                ∙ ap seat_of is)
            | inr other ↦ rw other (elim (g.rooms c) [
              | inl e ↦ ap seat_of e
              | inr (q, q', e, was', is', hosts', alike') ↦
                  absurd (ground (arith, bytes_eq_iff client.current_room c))
            ])
          ]))
]

pub handle_received_data-Refines :
    ⦃io : Stream⦄ ⦃json : Json⦄ (speaks : Protocols) (client : Client) (peer : Peer) (raw : Bytes)
    (w : World)
    → speaks peer ≡ some client.protocol_version
    → Inv w.server
    → Ends (λ s. Refines speaks w.rooms s.rooms) (handle_received_data client peer raw w)
handle_received_data-Refines speaks client peer raw w known inv =
    let P : Server → Type 0 = λ s. Refines speaks w.rooms s.rooms in
    let guarded =
      λ (w' : World) (g : Guarded client peer w w'). Guarded-Refines speaks client peer w w' g in
    let handlers : Handlers P client peer w = record {
      stays = Refines-same speaks w.rooms;
      creates = λ s u. handle_room_creation-Refines speaks client peer known s u w inv.next_room;
      joins = λ s u. handle_room_join-Refines speaks client peer known w inv s u;
      joins_or_creates =
          λ s u. handle_join_or_create_room-Refines speaks client peer known w inv s u;
      joins_at_random = handle_join_or_create_room_random-Refines speaks client peer known w inv;
      leaves = handle_room_leave-Refines speaks client peer w;
      kicks = λ target. handle_kick_client-Refines speaks client peer target w;
      sets_password = λ s. guarded _ (settings-Guarded client peer s w).0;
      sets_max_players = λ s. guarded _ (settings-Guarded client peer s w).1;
      sets_private = λ s. guarded _ (settings-Guarded client peer s w).2;
      sets_host_migration = λ s. guarded _ (settings-Guarded client peer s w).3;
      sets_name = λ s. guarded _ (settings-Guarded client peer s w).4;
      sets_extra_info = λ s. guarded _ (settings-Guarded client peer s w).5;
    } in
    handle_received_data-Ends P client peer raw w handlers
