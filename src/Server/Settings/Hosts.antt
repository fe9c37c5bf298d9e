-- ===== src/Server/Settings/Hosts.antt =====
-- ynetserver.cpp: who changes a room's settings, and what of the room.
use ynetserver_enet.Base.{
  ◌≡◌, ◌⊎◌, refl, sym, some, Bytes, bytes_key, nat_key, bytes_eq_iff, bytes_eq, inl, inr, arith,
  Bool-cases, ◌==◌, not, option-cases, if-cases, subst,
}
use ynetserver_enet.Base.Dict.{lookup, lookup-assign}
use ynetserver_enet.Room.{Peer, Room, Client}
use ynetserver_enet.Server.{World, set_room}
use ynetserver_enet.Server.Settings.{
  change_room, handle_set_room_password, handle_set_max_players, handle_set_room_private,
  handle_set_host_migration, handle_set_room_name, handle_set_extra_info,
}
use ynetserver_enet.Server.Invariant.Settings.{Alike, Harmless, with_max_players-Harmless}

-- Of the rooms, only one that the sender hosts and is in may differ, and there neither the
-- identity nor the members do; clients, ids, and what was sent stay.
pub record Guarded (client : Client) (peer : Peer) (w w' : World) : Type 0 where
  pub same_clients : w'.clients ≡ w.clients
  pub same_effects : w'.effects ≡ w.effects
  pub same_ids : w'.used_room_ids ≡ w.used_room_ids
  pub rooms :
      (c : Bytes)
      → (lookup c w'.rooms ≡ lookup c w.rooms)
        ⊎ ((r r' : Room) × (c ≡ client.current_room)
            × (lookup c w.rooms ≡ some r)
            × (lookup c w'.rooms ≡ some r')
            × (r.host ≡ peer)
            × Alike r r')

unchanged : (client : Client) (peer : Peer) (w : World) → Guarded client peer w w
unchanged client peer w = record {
  same_clients = refl;
  same_effects = refl;
  same_ids = refl;
  rooms = λ c. inl refl;
}

change_room-Guarded :
    (f : Room → Room)
    → Harmless f
    → (client : Client) (peer : Peer) (w : World)
    → Guarded client peer w (change_room f client peer w)
unfolding change_room set_room
change_room-Guarded f harmless client peer w =
    option-cases (Guarded client peer w) (lookup client.current_room w.rooms) _ _
      (λ _. unchanged client peer w)
      (λ r here.
        if-cases (Guarded client peer w) (not (r.host == peer)) _ _ (λ _. unchanged client peer w)
          (λ host. record {
            same_clients = refl;
            same_effects = refl;
            same_ids = refl;
            rooms = λ c. elim (Bool-cases (bytes_eq client.current_room c)) [
              | inl same ↦
                  let eq : client.current_room ≡ c =
                    ground (arith, bytes_eq_iff client.current_room c) in
                  inr (
                    r,
                    f r,
                    sym eq,
                    subst (λ d. lookup d w.rooms ≡ some r) eq here,
                    ground (arith, lookup-assign client.current_room c (f r) r w.rooms here),
                    ground arith,
                    harmless r,
                  )
              | inr other ↦
                  inl (ground (arith, lookup-assign client.current_room c (f r) r w.rooms here))
            ];
          }))

module _ (client : Client) (peer : Peer) (s : Bytes) (w : World) where
  pub settings-Guarded :
      Guarded client peer w (handle_set_room_password client peer s w)
      × Guarded client peer w (handle_set_max_players client peer s w)
      × Guarded client peer w (handle_set_room_private client peer s w)
      × Guarded client peer w (handle_set_host_migration client peer s w)
      × Guarded client peer w (handle_set_room_name client peer s w)
      × Guarded client peer w (handle_set_extra_info client peer s w)
  unfolding handle_set_room_password handle_set_max_players handle_set_room_private
      handle_set_host_migration handle_set_room_name handle_set_extra_info
  settings-Guarded =
      let plain = λ (f : Room → Room) (h : Harmless f). change_room-Guarded f h client peer w in
      (
        plain _ (λ r. (refl, refl, refl, refl, refl)),
        plain _ (with_max_players-Harmless s),
        plain _ (λ r. (refl, refl, refl, refl, refl)),
        plain _ (λ r. (refl, refl, refl, refl, refl)),
        plain _ (λ r. (refl, refl, refl, refl, refl)),
        plain _ (λ r. (refl, refl, refl, refl, refl)),
      )
