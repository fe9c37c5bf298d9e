-- ===== src/Server/Send.antt =====
-- ynetserver.cpp: `sendMessage`, `sendRPCMessage` and the loops that send to a room. A handler
-- yields `none` where the process ends: a message that does not fit its buffer fails an assertion.
use ynetserver_enet.Base.{ℕ, [], ◌∷◌, Option, none, some, Bytes, ◌>>=◌, ◌==◌, if◌then◌else◌}
use ynetserver_enet.Base.Dict.{Dict}
use ynetserver_enet.Stream.{Stream}
use ynetserver_enet.Message.{AnyMessage, MessageType, error, text_message}
use ynetserver_enet.Message.Wire.{encode}
use ynetserver_enet.Room.{Peer}
use ynetserver_enet.Server.{World, sends, emit, get_client_for_peer}

abbrev pub reliable : ℕ
reliable = 1

abbrev pub buffer_size : ℕ
buffer_size = 65532

-- `sizeof(RPCMessage)` on a 64-bit system: the table pointer, the type, the RPC type and a vector.
abbrev pub rpc_buffer_size : ℕ
rpc_buffer_size = 40

module _ ⦃io : Stream⦄ where
  -- The packet is recorded as the message that its bytes encode.
  unfoldable pub send_in : ℕ → Peer → AnyMessage → ℕ → ℕ → World → Option World
  send_in cap peer m flags channel w = do
    b ← encode cap m
    some (emit (sends peer channel flags m) w)

  unfoldable pub send_message : Peer → AnyMessage → ℕ → ℕ → World → Option World
  unfolding send_in
  send_message = send_in buffer_size

  unfoldable pub send_rpc_message : Peer → AnyMessage → World → Option World
  unfolding send_in
  send_rpc_message peer m = send_in rpc_buffer_size peer m reliable 0

  -- A `Message` with the default flags and channel.
  unfoldable pub send_text : Peer → MessageType → Bytes → World → Option World
  unfolding send_message
  send_text peer t s = send_message peer (text_message t s) reliable 0

  unfoldable pub send_error : Peer → Bytes → World → Option World
  unfolding send_text
  send_error peer s = send_text peer error s

  -- `for (const auto& [otherPeer, _] : room.clients) if (otherPeer != peer)` … with a client that
  -- is known: `send` to it. `skipped` is 0 where the loop skips nobody.
  unfoldable pub for_each :
      (Peer → World → Option World) → Peer → Dict Peer ℕ → World → Option World
  for_each send skipped [] w = some w
  for_each send skipped ((p, id) ∷ members) w =
      let rest = for_each send skipped members in
      if p == skipped
      then rest w
      else elim (get_client_for_peer p w) [ none ↦ rest w | some other ↦ do w' ← send p w; rest w' ]
