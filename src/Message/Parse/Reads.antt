-- ===== src/Message/Parse/Reads.antt =====
-- What the readers make of a stream that holds a message's items.
use ynetserver_enet.Base.{
  ℕ, ◌≡◌, refl, sym, ap, none, ◌∙◌, List, [], ◌∷◌, ◌++◌, append_assoc, Option, some, subst, Bytes,
  length, replicate, length-replicate, append-nil, ◌<◌, ◌^◌, arith,
}
use ynetserver_enet.Stream.{Stream, Laws, Width, w8, w16, w32, limit, Item, uint}
use ynetserver_enet.Message.{
  AnyMessage, Packet, base, connection, rpc, text, room_setting, create_with_password,
  join_with_password, room_joined, packet, room_info,
}
use ynetserver_enet.Message.Wire.{padding}
use ynetserver_enet.Message.Wire.Items.{
  some_blob, vector_items, string_items, items, IsValid, AllFit, AllFit-append,
}
use ynetserver_enet.Message.Parse.{
  Read, ◌>>=◌, return, read_or_base, read_shape, shape_for, deserialize, Shape, texts, settings,
  creations, joins, joined, packets, rpcs, connections, read_some, read_godot_string, read_vector,
  read_one, read_two, read_connection, read_rpc, read_packet,
}

abbrev pub shape : AnyMessage → Option Shape
shape (base t) = none
shape (connection t id) = some connections
shape (rpc t k b) = some rpcs
shape (text t s) = some texts
shape (room_setting t s) = some settings
shape (create_with_password t s u) = some creations
shape (join_with_password t s u) = some joins
shape (room_joined t s u) = some joined
shape (packet p) = some packets
shape (room_info t s) = none

abbrev pub type_byte : AnyMessage → ℕ
type_byte (base t) = t
type_byte (connection t id) = t
type_byte (rpc t k b) = t
type_byte (text t s) = t
type_byte (room_setting t s) = t
type_byte (create_with_password t s u) = t
type_byte (join_with_password t s u) = t
type_byte (room_joined t s u) = t
type_byte (packet p) = p.type
type_byte (room_info t s) = t

-- Every structure starts with its type.
items_split : (m : AnyMessage) → (rest : List Item) × (items m ≡ uint w8 (type_byte m) ∷ rest)
items_split (base t) = (_, refl)
items_split (connection t id) = (_, refl)
items_split (rpc t k b) = (_, refl)
items_split (text t s) = (_, refl)
items_split (room_setting t s) = (_, refl)
items_split (create_with_password t s u) = (_, refl)
items_split (join_with_password t s u) = (_, refl)
items_split (room_joined t s u) = (_, refl)
items_split (packet p) = (_, refl)
items_split (room_info t s) = (_, refl)

byte_valid : (m : AnyMessage) → IsValid m → type_byte m < 2 ^ 8
byte_valid m v =
    let (rest, e) = items_split m in
    let valid : AllFit (uint w8 (type_byte m) ∷ rest) = subst AllFit e v in valid.0

module _ ⦃io : Stream⦄ (laws : Laws io) where
  -- `f` takes the items `is` from a stream that begins with them, and returns `a`.
  pub record Reads {A : Type 0} (f : Read io.Reader A) (is : List Item) (a : A) : Type 0 where
    pub run :
        (js : List Item) (r : io.Reader)
        → laws.Holds (is ++ js) r
        → (q : io.Reader) × (f r ≡ some (a, q)) × laws.Holds js q

  Reads-uint : (w : Width) (v : ℕ) → v < limit w → Reads (io.get_uint w) (uint w v ∷ []) v
  Reads-uint w v h = record { run = λ js r hold. laws.get_uint-Holds w v js r hold h }

  Reads-return : {A : Type 0} (a : A) → Reads (return a) [] a
  unfolding return
  Reads-return a = record { run = λ js r hold. (r, refl, hold) }

  Reads-some : (b : Bytes) → Reads (read_some (length b)) (some_blob b) b
  unfolding read_some
  Reads-some [] = Reads-return []
  Reads-some (x ∷ b) = record { run = λ js r hold. laws.get_bytes-Holds (x ∷ b) js r hold }

  Reads-bind :
      {A B : Type 0} {f : Read io.Reader A} (g : A → Read io.Reader B) {is js : List Item} {a : A}
      {b : B}
      → Reads f is a
      → Reads (g a) js b
      → Reads (f >>= g) (is ++ js) b
  unfolding ◌>>=◌
  Reads-bind {f} g {is} {js} {a} {b} rf rg = record {
    run = λ ks r hold.
        let (q, e, h) =
          rf.run (js ++ ks) r (subst (λ l. laws.Holds l r) (append_assoc is js ks) hold) in
        let (p, e', h') = rg.run ks q h in (p, rw (e, ◌>>=◌) e', h');
  }

  -- the last read of a structure
  Reads-last :
      {A B : Type 0} {f : Read io.Reader A} (make : A → B) {is : List Item} {a : A}
      → Reads f is a
      → Reads (f >>= λ x. return (make x)) is (make a)
  Reads-last {f} make {is} {a} rf =
      subst (λ l. Reads (f >>= λ x. return (make x)) l (make a)) (append-nil is)
        (Reads-bind _ rf (Reads-return (make a)))

  Reads-vector : (b : Bytes) → length b < limit w32 → Reads read_vector (vector_items b) b
  unfolding read_vector
  Reads-vector b h = Reads-bind _ (Reads-uint w32 (length b) h) (Reads-some b)

  Reads-padding :
      (n : ℕ)
      → Reads
          (read_some (padding n))
          (some_blob (replicate (padding n) 0))
          (replicate (padding n) 0)
  Reads-padding n =
      subst
        (λ k. Reads (read_some k) (some_blob (replicate (padding n) 0)) (replicate (padding n) 0))
        (length-replicate (padding n) 0) (Reads-some (replicate (padding n) 0))

  Reads-string : (s : Bytes) → length s < limit w32 → Reads read_godot_string (string_items s) s
  unfolding read_godot_string
  Reads-string s h = Reads-bind _ (Reads-uint w32 4 (omega arith)) (
      Reads-bind _ (Reads-uint w32 (length s) h)
        (Reads-bind _ (Reads-some s) (Reads-last (λ _. s) (Reads-padding (length s)))))

  Reads-one :
      (make : ℕ → Bytes → AnyMessage) (t : ℕ) (s : Bytes)
      → AllFit (uint w8 t ∷ string_items s)
      → Reads (read_one make) (uint w8 t ∷ string_items s) (make t s)
  unfolding read_one
  Reads-one make t s h =
      Reads-bind _ (Reads-uint w8 t h.0) (Reads-last (make t) (Reads-string s h.1.1.0))

  Reads-two :
      (make : ℕ → Bytes → Bytes → AnyMessage) (t : ℕ) (s u : Bytes)
      → AllFit (uint w8 t ∷ string_items s ++ string_items u)
      → Reads (read_two make) (uint w8 t ∷ string_items s ++ string_items u) (make t s u)
  unfolding read_two
  Reads-two make t s u h = Reads-bind _ (Reads-uint w8 t h.0) (
      Reads-bind _ (Reads-string s h.1.1.0) (
        Reads-last (make t s)
          (Reads-string u (AllFit-append (string_items s) (string_items u) h.1).1.1.0)))

  Reads-connection :
      (t id : ℕ)
      → IsValid (connection t id)
      → Reads read_connection (items (connection t id)) (connection t id)
  unfolding read_connection
  Reads-connection t id h =
      Reads-bind _ (Reads-uint w8 t h.0) (Reads-last (connection t) (Reads-uint w16 id h.1.0))

  Reads-rpc :
      (t k : ℕ) (b : Bytes) → IsValid (rpc t k b) → Reads read_rpc (items (rpc t k b)) (rpc t k b)
  unfolding read_rpc
  Reads-rpc t k b h =
      Reads-bind _ (Reads-uint w8 t h.0)
        (Reads-bind _ (Reads-uint w16 k h.1.0) (Reads-last (rpc t k) (Reads-vector b h.1.1.0)))

  Reads-packet : (p : Packet) → IsValid (packet p) → Reads read_packet (items (packet p)) (packet p)
  unfolding read_packet
  Reads-packet p h = Reads-bind _ (Reads-uint w8 p.type h.0) (
      Reads-bind _ (Reads-uint w8 p.channel h.1.0) (
        Reads-bind _ (Reads-uint w8 p.reliability_flags h.1.1.0) (
          Reads-bind _ (Reads-uint w32 p.target_client_id h.1.1.1.0)
            (Reads-last _ (Reads-vector p.packet_data h.1.1.1.1.0)))))

  -- Each structure is read back by the reader of its shape.
  Reads-shape :
      (m : AnyMessage) (sh : Shape)
      → IsValid m
      → shape m ≡ some sh
      → Reads (read_shape sh) (items m) m
  unfolding read_shape
  Reads-shape (base t) sh v e = cc
  Reads-shape (room_info t s) sh v e = cc
  Reads-shape (connection t id) connections v e = Reads-connection t id v
  Reads-shape (rpc t k b) rpcs v e = Reads-rpc t k b v
  Reads-shape (text t s) texts v e = Reads-one text t s v
  Reads-shape (room_setting t s) settings v e = Reads-one room_setting t s v
  Reads-shape (create_with_password t s u) creations v e = Reads-two create_with_password t s u v
  Reads-shape (join_with_password t s u) joins v e = Reads-two join_with_password t s u v
  Reads-shape (room_joined t s u) joined v e = Reads-two room_joined t s u v
  Reads-shape (packet p) packets v e = Reads-packet p v
  Reads-shape m sh v e = cc

  read_or_base-flush :
      (m : AnyMessage) (sh : Shape) (o : io.Writer)
      → IsValid m
      → shape m ≡ some sh
      → laws.written o ≡ items m
      → read_or_base (some sh) (io.flush o) ≡ m
  unfolding read_or_base
  read_or_base-flush m sh o v e w =
      let hold : laws.Holds (items m ++ []) (io.open_reader (io.flush o)) =
        subst (λ l. laws.Holds l (io.open_reader (io.flush o))) (w ∙ sym (append-nil (items m)))
          (laws.open-flush o) in
      let (q, run, rest) = (Reads-shape m sh v e).run [] _ hold in rw (run, read_or_base)

  -- What is flushed starts with the type.
  pub first_byte_of :
      (m : AnyMessage) (o : io.Writer)
      → IsValid m
      → laws.written o ≡ items m
      → (rest : Bytes) × (io.flush o ≡ type_byte m ∷ rest)
  first_byte_of m o v w =
      laws.first_byte o (type_byte m) (items_split m).0 (w ∙ (items_split m).1) (byte_valid m v)

  -- `Deserialize` gives back a message that `serialize` wrote, if its type byte names its structure.
  pub deserialize-flush :
      (m : AnyMessage) (sh : Shape) (o : io.Writer)
      → IsValid m
      → shape m ≡ some sh
      → shape_for (type_byte m) ≡ some sh
      → laws.written o ≡ items m
      → deserialize (io.flush o) ≡ some m
  unfolding deserialize
  deserialize-flush m sh o v e t w =
      let (rest, f) = first_byte_of m o v w in
      rw f (rw t (ap some (rw f at (read_or_base-flush m sh o v e w))))
