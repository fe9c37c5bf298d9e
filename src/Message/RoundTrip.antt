-- ===== src/Message/RoundTrip.antt =====
-- message.h and message.cpp: encoding and decoding, one after the other.
use ynetserver_enet.Base.{◌≤◌, ◌≡◌, ℕ, some, Bytes, ◌∷◌, ap, ◌∙◌}
use ynetserver_enet.Stream.{Stream, Laws, total}
use ynetserver_enet.Message.{AnyMessage}
use ynetserver_enet.Message.Wire.{encode}
use ynetserver_enet.Message.Wire.Items.{items, IsValid, encode_fits}
use ynetserver_enet.Message.Parse.{Shape, shape_for, deserialize}
use ynetserver_enet.Message.Parse.Reads.{shape, type_byte, deserialize-flush, first_byte_of}

module _ ⦃io : Stream⦄ (laws : Laws io) where
  -- On streams that keep their laws, a message whose fields are within their types, that fits its
  -- buffer, and whose type byte is one of those for its structure, is encoded, and Deserialize
  -- gives it back.
  pub encode-deserialize :
      (cap : ℕ) (m : AnyMessage) (sh : Shape)
      → IsValid m
      → total (items m) ≤ cap
      → shape m ≡ some sh
      → shape_for (type_byte m) ≡ some sh
      → (b : Bytes) × (encode cap m ≡ some b) × (deserialize b ≡ some m)
  encode-deserialize cap m sh valid fits structure known =
      let (o, e, w) = encode_fits laws cap m valid fits in
      (io.flush o, e, deserialize-flush laws m sh o valid structure known w)

  -- The first byte of what is encoded is the type.
  pub encode-head :
      (cap : ℕ) (m : AnyMessage)
      → IsValid m
      → total (items m) ≤ cap
      → (b : Bytes) × (encode cap m ≡ some (type_byte m ∷ b))
  encode-head cap m valid fits =
      let (o, e, w) = encode_fits laws cap m valid fits in
      let (rest, f) = first_byte_of laws m o valid w in (rest, e ∙ ap some f)
