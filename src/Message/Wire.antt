-- ===== src/Message/Wire.antt =====
-- message.h: the `Serialize` templates on a `WriteStream`, and `serialize_godot_string_internal`,
-- which the program added to thirdparty/serialize.h.
pub mod Items
use ynetserver_enet.Base.{ℕ, ◌-◌, ◌%◌, [], ◌∷◌, Option, some, Bytes, length, take, replicate, ◌>>=◌}
use ynetserver_enet.Stream.{Stream, w8, w16, w32, limit}
use ynetserver_enet.Message.{
  AnyMessage, Packet, base, connection, rpc, text, room_setting, create_with_password,
  join_with_password, room_joined, packet, room_info,
}

-- Bytes that bring a string of size n to a multiple of four.
abbrev pub padding : ℕ → ℕ
padding n = (4 - n % 4) % 4

module _ ⦃io : Stream⦄ where
  -- `if (size > 0) serialize_bytes(…)`
  write_some : Bytes → io.Writer → Option io.Writer
  write_some [] o = some o
  write_some (x ∷ b) o = io.put_bytes (x ∷ b) o

  -- a string of the given size between its header and its padding
  write_padded : ℕ → Bytes → io.Writer → Option io.Writer
  unfolding write_some
  write_padded size s o = do
    o₁ ← io.put_uint w32 4 o
    o₂ ← io.put_uint w32 size o₁
    o₃ ← write_some (take size s) o₂
    write_some (replicate (padding size) 0) o₃

  write_godot_string : Bytes → io.Writer → Option io.Writer
  unfolding write_padded
  write_godot_string s = write_padded (length s % limit w32) s

  write_sized : ℕ → Bytes → io.Writer → Option io.Writer
  unfolding write_some
  write_sized size b o = do o₁ ← io.put_uint w32 size o; write_some (take size b) o₁

  -- a `std::vector<uint8_t>` behind its size
  write_vector : Bytes → io.Writer → Option io.Writer
  unfolding write_sized
  write_vector b = write_sized (length b % limit w32) b

  write_two : ℕ → Bytes → Bytes → io.Writer → Option io.Writer
  write_two t s₁ s₂ o = do
    o₁ ← io.put_uint w8 t o
    o₂ ← write_godot_string s₁ o₁
    write_godot_string s₂ o₂

  write_one : ℕ → Bytes → io.Writer → Option io.Writer
  write_one t s o = do o₁ ← io.put_uint w8 t o; write_godot_string s o₁

  write_rpc : ℕ → ℕ → Bytes → io.Writer → Option io.Writer
  write_rpc t rpc_type b o = do
    o₁ ← io.put_uint w8 t o
    o₂ ← io.put_uint w16 rpc_type o₁
    write_vector b o₂

  write_packet : Packet → io.Writer → Option io.Writer
  write_packet p o = do
    o₁ ← io.put_uint w8 p.type o
    o₂ ← io.put_uint w8 p.channel o₁
    o₃ ← io.put_uint w8 p.reliability_flags o₂
    o₄ ← io.put_uint w32 p.target_client_id o₃
    write_vector p.packet_data o₄

  -- the virtual `serialize`
  unfoldable pub serialize : AnyMessage → io.Writer → Option io.Writer
  unfolding write_one write_two write_rpc write_packet write_godot_string write_vector
  serialize (base t) o = io.put_uint w8 t o
  serialize (connection t id) o = do o₁ ← io.put_uint w8 t o; io.put_uint w16 id o₁
  serialize (rpc t rpc_type b) o = write_rpc t rpc_type b o
  serialize (text t s) o = write_one t s o
  serialize (room_setting t s) o = write_one t s o
  serialize (create_with_password t s₁ s₂) o = write_two t s₁ s₂ o
  serialize (join_with_password t s₁ s₂) o = write_two t s₁ s₂ o
  serialize (room_joined t s₁ s₂) o = write_two t s₁ s₂ o
  serialize (packet p) o = write_packet p o
  serialize (room_info t s) o = write_one t s o

  -- A message in a buffer of `cap` bytes, as `enet_packet_create` gets it.
  unfoldable pub encode : ℕ → AnyMessage → Option Bytes
  unfolding serialize
  encode cap m = do o ← serialize m (io.open_writer cap); some (io.flush o)
