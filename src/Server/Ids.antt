-- ===== src/Server/Ids.antt =====
-- ynetserver.cpp: `generateRoomId`, `releaseRoomId`, `generateClientId`, `releaseClientId`.
pub mod Search
use ynetserver_enet.Base.{
  ℕ, zero, suc, ◌+◌, ◌-◌, ◌%◌, List, Option, none, some, ◌>>=◌, ◌==◌, ltb, if◌then◌else◌,
}
use ynetserver_enet.Base.Dict.{contains, include, exclude}
use ynetserver_enet.Server.{Server}

abbrev pub max_room_id : ℕ
max_room_id = 65535

abbrev pub min_client_id : ℕ
min_client_id = 1000

abbrev pub max_client_id : ℕ
max_client_id = 65535

abbrev pub next_room : ℕ → ℕ
next_room n = (n + 1) % (max_room_id + 1)

-- The search loop, on fuel.
unfoldable pub find_room_id : ℕ → ℕ → List ℕ → Option ℕ
find_room_id zero next used = none
find_room_id (suc f) next used =
    let rest = find_room_id f (next_room next) used in
    if contains next used then rest else some next

-- 65536 rounds look at every id: `none` means that all are in use, and that the loop spins for
-- ever.
unfoldable pub generate_room_id : Server → Option (ℕ × Server)
generate_room_id s = do
  id ← find_room_id (max_room_id + 1) s.next_room_id s.used_room_ids
  some (id, record s { used_room_ids = include id s.used_room_ids; next_room_id = next_room id })

unfoldable pub release_room_id : ℕ → Server → Server
release_room_id id s = record s { used_room_ids = exclude id s.used_room_ids }

abbrev pub next_client : ℕ → ℕ
next_client n = (n + 1 - min_client_id) % (max_client_id - min_client_id + 1) + min_client_id

-- The search loop, on fuel; `none` is `triedAllIds`.
unfoldable pub find_client_id : ℕ → ℕ → ℕ → List ℕ → Option ℕ
find_client_id zero start next used = none
find_client_id (suc f) start next used =
    let rest = find_client_id f start (next_client next) used in
    if contains next used then (if next_client next == start then none else rest) else some next

-- `none` is the `std::runtime_error`. The loop comes back to its start within 64536 rounds.
unfoldable pub generate_client_id : Server → Option (ℕ × Server)
generate_client_id s = do
  let start = if ltb s.next_client_id min_client_id then min_client_id else s.next_client_id
  id ← find_client_id (max_client_id - min_client_id + 1) start start s.used_client_ids
  some (
    id,
    record s { used_client_ids = include id s.used_client_ids; next_client_id = next_client id },
  )

unfoldable pub release_client_id : ℕ → Server → Server
release_client_id id s = record s { used_client_ids = exclude id s.used_client_ids }
