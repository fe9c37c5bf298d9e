-- ===== src/Server/Invariant/Settings.antt =====
-- ynetserver.cpp: the invariant and the handlers of a room's settings.
use ynetserver_enet.Base.{
  nat_key, not, ◌≡◌, refl, Bytes, bytes_key, inr, inl, if-cases, option-cases, ◌==◌, none, arith,
  zero, suc, true,
}
use ynetserver_enet.Base.Int.{ℤ, pos, negsuc}
use ynetserver_enet.Base.Dict.{lookup, has}
use ynetserver_enet.Text.{stoi}
use ynetserver_enet.Room.{Peer, Room, Client}
use ynetserver_enet.Server.{Server, World}
use ynetserver_enet.Server.Settings.{
  with_limit, change_room, with_max_players, handle_set_room_password, handle_set_max_players,
  handle_set_room_private, handle_set_host_migration, handle_set_room_name, handle_set_extra_info,
}
use ynetserver_enet.Server.Invariant.Stable.{Stable, set_room-Stable}

-- Two states of a room with the same identity, members and protocol.
abbrev pub Alike : Room → Room → Type 0
Alike r r' =
    (r'.room_id ≡ r.room_id)
    × (r'.room_code ≡ r.room_code)
    × (r'.host ≡ r.host)
    × (r'.clients ≡ r.clients)
    × (r'.protocol ≡ r.protocol)

abbrev pub Harmless : (Room → Room) → Type 0
Harmless f = (r : Room) → Alike r (f r)

-- The number of players that a room admits is all that its setter can change.
with_limit-Alike : (z : ℤ) (r : Room) → Alike r (with_limit z r)
unfolding with_limit
with_limit-Alike (pos zero) r = (refl, refl, refl, refl, refl)
with_limit-Alike (pos (suc n)) r = (refl, refl, refl, refl, refl)
with_limit-Alike (negsuc n) r = (refl, refl, refl, refl, refl)

pub with_max_players-Harmless : (s : Bytes) → Harmless (with_max_players s)
unfolding with_max_players
with_max_players-Harmless s r =
    option-cases (Alike r) (stoi s) r (λ z. with_limit z r) (λ _. (refl, refl, refl, refl, refl))
      (λ z _. with_limit-Alike z r)

module _ {s₀ : Server} (client : Client) (peer : Peer) (w : World)
    (st : Stable s₀ none w.server) where
  pub change_room-Stable :
      (f : Room → Room) → Harmless f → Stable s₀ none (change_room f client peer w).server
  unfolding change_room
  change_room-Stable f harmless =
      option-cases (λ (v : World). Stable s₀ none v.server) (lookup client.current_room w.rooms) _ _
        (λ _. st)
        (λ r here.
          if-cases (λ (v : World). Stable s₀ none v.server) (not (r.host == peer)) _ _ (λ _. st)
            (λ host.
              let (id, code, same_host, same_clients, same_protocol) = harmless r in
              let member : has (f r).host (f r).clients ≡ true =
                elim (st.rooms.hosted client.current_room r here) [
                  | inl gap ↦ absurd (ground arith)
                  | inr there ↦ ground arith
                ] in
              set_room-Stable none client.current_room r (f r) w here id code (inr member)
                (λ c _ g. g) st))

  pub handle_set_room_password-Stable :
      (s : Bytes) → Stable s₀ none (handle_set_room_password client peer s w).server
  unfolding handle_set_room_password
  handle_set_room_password-Stable s = change_room-Stable _ (λ r. (refl, refl, refl, refl, refl))

  pub handle_set_max_players-Stable :
      (s : Bytes) → Stable s₀ none (handle_set_max_players client peer s w).server
  unfolding handle_set_max_players
  handle_set_max_players-Stable s = change_room-Stable _ (with_max_players-Harmless s)

  pub handle_set_room_private-Stable :
      (s : Bytes) → Stable s₀ none (handle_set_room_private client peer s w).server
  unfolding handle_set_room_private
  handle_set_room_private-Stable s = change_room-Stable _ (λ r. (refl, refl, refl, refl, refl))

  pub handle_set_host_migration-Stable :
      (s : Bytes) → Stable s₀ none (handle_set_host_migration client peer s w).server
  unfolding handle_set_host_migration
  handle_set_host_migration-Stable s = change_room-Stable _ (λ r. (refl, refl, refl, refl, refl))

  pub handle_set_room_name-Stable :
      (s : Bytes) → Stable s₀ none (handle_set_room_name client peer s w).server
  unfolding handle_set_room_name
  handle_set_room_name-Stable s = change_room-Stable _ (λ r. (refl, refl, refl, refl, refl))

  pub handle_set_extra_info-Stable :
      (s : Bytes) → Stable s₀ none (handle_set_extra_info client peer s w).server
  unfolding handle_set_extra_info
  handle_set_extra_info-Stable s = change_room-Stable _ (λ r. (refl, refl, refl, refl, refl))
