-- ===== src/Server/Invariant/Receives.antt =====
-- ynetserver.cpp: the invariant and `handleReceivedData`.
use ynetserver_enet.Base.{◌≡◌, none, some, Bytes, nat_key}
use ynetserver_enet.Stream.{Stream}
use ynetserver_enet.Room.{Peer, Client}
use ynetserver_enet.Server.{Server, World}
use ynetserver_enet.Server.Info.{Json}
use ynetserver_enet.Server.Dispatch.{handle_received_data}
use ynetserver_enet.Server.Ends.{Ends}
use ynetserver_enet.Server.Invariant.Clients.{id_of}
use ynetserver_enet.Server.Invariant.Stable.{Stable}
use ynetserver_enet.Server.Invariant.Creates.{handle_room_creation-Stable}
use ynetserver_enet.Server.Invariant.Joins.{
  handle_room_join-Stable, handle_join_or_create_room-Stable,
  handle_join_or_create_room_random-Stable,
}
use ynetserver_enet.Server.Invariant.Leaves.{handle_room_leave-Stable, handle_kick_client-Stable}
use ynetserver_enet.Server.Invariant.Settings.{
  handle_set_extra_info-Stable, handle_set_host_migration-Stable, handle_set_max_players-Stable,
  handle_set_room_name-Stable, handle_set_room_password-Stable, handle_set_room_private-Stable,
}
use ynetserver_enet.Server.Ends.Receives.{Handlers, handle_received_data-Ends}

pub handle_received_data-Stable :
    ⦃io : Stream⦄ ⦃json : Json⦄ {s₀ : Server} (client : Client) (peer : Peer) (raw : Bytes)
    (w : World)
    → id_of peer s₀.clients ≡ some client.id
    → Stable s₀ none w.server
    → Ends (Stable s₀ none) (handle_received_data client peer raw w)
handle_received_data-Stable {s₀} client peer raw w known st =
    let handlers : Handlers (Stable s₀ none) client peer w = record {
      stays = st;
      creates = λ s u. handle_room_creation-Stable client peer known s u w st;
      joins = λ s u. handle_room_join-Stable client peer known s u w st;
      joins_or_creates = λ s u. handle_join_or_create_room-Stable client peer known s u w st;
      joins_at_random = handle_join_or_create_room_random-Stable client peer known w st;
      leaves = handle_room_leave-Stable client peer w known st;
      kicks = λ target. handle_kick_client-Stable client peer target w st;
      sets_password = handle_set_room_password-Stable client peer w st;
      sets_max_players = handle_set_max_players-Stable client peer w st;
      sets_private = handle_set_room_private-Stable client peer w st;
      sets_host_migration = handle_set_host_migration-Stable client peer w st;
      sets_name = handle_set_room_name-Stable client peer w st;
      sets_extra_info = handle_set_extra_info-Stable client peer w st;
    } in
    handle_received_data-Ends (Stable s₀ none) client peer raw w handlers
