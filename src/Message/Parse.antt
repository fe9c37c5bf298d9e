-- ===== src/Message/Parse.antt =====
-- message.h: the `Serialize` templates on a `ReadStream`; message.cpp: `Message::Deserialize`.
pub mod Reads
use ynetserver_enet.Base.{ℕ, zero, suc, Option, none, some, Bytes, [], ◌∷◌, ◌==◌, if◌then◌else◌}
use ynetserver_enet.Stream.{Stream, w8, w16, w32}
use ynetserver_enet.Message.Wire.{padding}
use ynetserver_enet.Message.{
  MessageType, error, room_create, room_join, room_leave, rpc_to_server, rpc_to_clients,
  rpc_to_client, message, get_room_list, confirm_room_creation, confirm_room_join, player_joined,
  set_room_password, set_max_players, set_room_private, set_host_migration, set_room_name,
  set_extra_info, get_room_info, packet_to_server, packet_to_clients, packet_to_client, kick_client,
  join_room_with_password, join_or_create_room, join_or_create_room_random, player_left,
  create_room_with_password, host_left, confirm_connection, type_of, AnyMessage, base, connection,
  rpc, text, room_setting, create_with_password, join_with_password, room_joined, packet,
}

-- The structures that `Deserialize` can make.
pub data Shape : Type 0 where
  texts settings creations joins joined packets rpcs connections : Shape

-- The structure that the `switch` picks for a message type; `none` is its default.
shape_of : MessageType → Option Shape
shape_of join_room_with_password = some joins
shape_of confirm_room_join = some joined
shape_of create_room_with_password = some creations
shape_of confirm_room_creation = some texts
shape_of join_or_create_room = some joins
shape_of join_or_create_room_random = some texts
shape_of set_extra_info = some settings
shape_of set_host_migration = some settings
shape_of set_room_name = some settings
shape_of set_room_password = some settings
shape_of set_max_players = some settings
shape_of set_room_private = some settings
shape_of packet_to_client = some packets
shape_of packet_to_clients = some packets
shape_of packet_to_server = some packets
shape_of rpc_to_client = some rpcs
shape_of rpc_to_clients = some rpcs
shape_of rpc_to_server = some rpcs
shape_of confirm_connection = some connections
shape_of room_create = some texts
shape_of room_join = some texts
shape_of room_leave = some texts
shape_of message = some texts
shape_of error = some texts
shape_of get_room_info = some texts
shape_of get_room_list = some texts
shape_of player_joined = some texts
shape_of player_left = some texts
shape_of kick_client = some texts
shape_of host_left = some texts
shape_of _ = none

unfoldable pub shape_for : ℕ → Option Shape
unfolding shape_of type_of
shape_for c = elim (type_of c) [ none ↦ none | some t ↦ shape_of t ]

-- A read from a stream, which may fail.
abbrev pub Read : Type 0 → Type 0 → Type 0
Read R A = R → Option (A × R)

infixl 5 ◌>>=◌
pub ◌>>=◌ : {R A B : Type 0} → Read R A → (A → Read R B) → Read R B
◌>>=◌ f g r = elim (f r) [ none ↦ none | some (a, q) ↦ g a q ]

return : {R A : Type 0} → A → Read R A
return a r = some (a, r)

fail : {R A : Type 0} → Read R A
fail r = none

module _ ⦃io : Stream⦄ where
  -- `if (size > 0) serialize_bytes(…)`
  read_some : ℕ → Read io.Reader Bytes
  read_some zero = return []
  read_some (suc n) = io.get_bytes (suc n)

  -- the size, the string and its padding
  read_padded : Read io.Reader Bytes
  unfolding read_some
  read_padded = do
    size ← io.get_uint w32
    s ← read_some size
    pad ← read_some (padding size)
    return s

  -- a string must start with the header 4
  read_godot_string : Read io.Reader Bytes
  unfolding read_padded
  read_godot_string = do header ← io.get_uint w32; if header == 4 then read_padded else fail

  -- The `resize` to the size, which may throw for want of memory, is left out.
  read_vector : Read io.Reader Bytes
  unfolding read_some
  read_vector = do size ← io.get_uint w32; read_some size

  read_one : (ℕ → Bytes → AnyMessage) → Read io.Reader AnyMessage
  unfolding read_godot_string
  read_one make = do t ← io.get_uint w8; s ← read_godot_string; return (make t s)

  read_two : (ℕ → Bytes → Bytes → AnyMessage) → Read io.Reader AnyMessage
  unfolding read_godot_string
  read_two make = do
    t ← io.get_uint w8
    s₁ ← read_godot_string
    s₂ ← read_godot_string
    return (make t s₁ s₂)

  read_connection : Read io.Reader AnyMessage
  read_connection = do t ← io.get_uint w8; id ← io.get_uint w16; return (connection t id)

  read_rpc : Read io.Reader AnyMessage
  unfolding read_vector
  read_rpc = do
    t ← io.get_uint w8
    rpc_type ← io.get_uint w16
    b ← read_vector
    return (rpc t rpc_type b)

  read_packet : Read io.Reader AnyMessage
  unfolding read_vector
  read_packet = do
    t ← io.get_uint w8
    channel ← io.get_uint w8
    flags ← io.get_uint w8
    target ← io.get_uint w32
    b ← read_vector
    return (
        packet (record {
          type = t;
          channel = channel;
          reliability_flags = flags;
          target_client_id = target;
          packet_data = b;
        }))

  read_shape : Shape → Read io.Reader AnyMessage
  unfolding read_one read_two read_connection read_rpc read_packet
  read_shape texts = read_one text
  read_shape settings = read_one room_setting
  read_shape creations = read_two create_with_password
  read_shape joins = read_two join_with_password
  read_shape joined = read_two room_joined
  read_shape packets = read_packet
  read_shape rpcs = read_rpc
  read_shape connections = read_connection

  -- A failed read gives `std::make_unique<BaseMessage>()`, whose type is zero-initialized.
  read_or_base : Option Shape → Bytes → AnyMessage
  unfolding read_shape ◌>>=◌ return fail
  read_or_base none b = base 0
  read_or_base (some sh) b = elim (read_shape sh (io.open_reader b)) [
    | none ↦ base 0
    | some (m, r) ↦ m
  ]

  -- `data[0]` of an empty packet lies outside the data: `none`.
  unfoldable pub deserialize : Bytes → Option AnyMessage
  unfolding read_or_base
  deserialize [] = none
  deserialize (c ∷ b) = some (read_or_base (shape_for c) (c ∷ b))
