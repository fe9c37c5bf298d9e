-- ===== src/Tests/Relays.antt =====
-- The theorems on relaying at concrete worlds.
use ynetserver_enet.Server.Relay.Targets.{
  host_for_member, addressee, handle_packet_to_server-host, handle_packet_to_client-addressee,
}
use ynetserver_enet.Base.{◌≡◌, refl, [], ◌∷◌, some, bytes, bytes_key, nat_key, arith}
use ynetserver_enet.Stream.LittleEndian.{little_endian_laws}
use ynetserver_enet.Message.{
  text_message, message, packet_to_clients, packet_to_server, packet_to_client,
}
use ynetserver_enet.Server.Send.{reliable}
use ynetserver_enet.Server.Relay.Targets.{known_member}
use ynetserver_enet.Server.Relay.{
  forwarded_packet, handle_packet_to_clients, broadcast_message, handle_packet_to_server,
  handle_packet_to_client,
}
use ynetserver_enet.Server.Relay.Delivery.{
  deliver, audience, listeners, handle_packet_to_clients-audience, broadcast_message-listeners,
}
use ynetserver_enet.Tests.{stream, no_json, program}
use ynetserver_enet.Tests.Worlds.{host, shared, member}

handle_packet_to_clients-audience_example :
    handle_packet_to_clients host 7 (1 ∷ 2 ∷ []) 1 0 shared
    ≡ some (
        deliver
          (forwarded_packet packet_to_clients 1000 (1 ∷ 2 ∷ []) 1 0)
          1
          0
          (audience host 7 shared)
          shared)
handle_packet_to_clients-audience_example =
    handle_packet_to_clients-audience little_endian_laws host 7 (1 ∷ 2 ∷ []) 1 0 shared
      (omega arith, (omega arith, (omega arith, (omega arith, (omega arith, (tt, tt))))))
      (omega arith)

handle_packet_to_server-host_example :
    handle_packet_to_server member 8 (1 ∷ 2 ∷ []) 1 0 shared
    ≡ some (
        deliver
          (forwarded_packet packet_to_server 1001 (1 ∷ 2 ∷ []) 1 0)
          1
          0
          (host_for_member member 8 shared)
          shared)
handle_packet_to_server-host_example =
    handle_packet_to_server-host little_endian_laws member 8 (1 ∷ 2 ∷ []) 1 0 shared
      (omega arith, (omega arith, (omega arith, (omega arith, (omega arith, (tt, tt))))))
      (omega arith)

handle_packet_to_client-addressee_example :
    handle_packet_to_client host 7 1001 (1 ∷ 2 ∷ []) 1 0 shared
    ≡ some (
        deliver
          (forwarded_packet packet_to_client 1000 (1 ∷ 2 ∷ []) 1 0)
          1
          0
          (addressee host 7 1001 shared)
          shared)
handle_packet_to_client-addressee_example =
    handle_packet_to_client-addressee little_endian_laws host 7 1001 (1 ∷ 2 ∷ []) 1 0 shared
      (omega arith, (omega arith, (omega arith, (omega arith, (omega arith, (tt, tt))))))
      (omega arith)

-- The packet of the guest reaches the host, and one for client 1001 the guest.
host_for_guest : host_for_member member 8 shared ≡ 7 ∷ []
unfolding host_for_member program
host_for_guest = refl

addressee_of_host : addressee host 7 1001 shared ≡ 8 ∷ []
unfolding addressee program known_member
addressee_of_host = refl

broadcast_message-listeners_example :
    broadcast_message host 7 (bytes "hi") shared
    ≡ some (deliver (text_message message (bytes "hi")) reliable 0 (listeners host 7 shared) shared)
broadcast_message-listeners_example =
    broadcast_message-listeners little_endian_laws host 7 (bytes "hi") shared (omega arith)

-- The host's data reaches the guest.
audience_of_host : audience host 7 shared ≡ 8 ∷ []
unfolding audience program
audience_of_host = refl
