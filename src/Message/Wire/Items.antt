-- ===== src/Message/Wire/Items.antt =====
-- What `serialize` writes, as the list of items that go into the stream.
use ynetserver_enet.Base.{
  ℕ, ◌+◌, ◌%◌, ◌≤◌, ◌<◌, ◌≡◌, refl, sym, ap, ◌∙◌, List, [], ◌∷◌, ◌++◌, append_assoc, append-nil,
  Option, none, some, ◌⊎◌, subst, inl, inr, arith, Bytes, length, take, replicate, take-append,
  ◌>>=◌,
}
use ynetserver_enet.Stream.{Stream, Laws, Width, w8, w16, w32, limit, Item, uint, blob, Fits, total}
use ynetserver_enet.Message.{
  AnyMessage, base, connection, rpc, text, room_setting, create_with_password, join_with_password,
  room_joined, packet, room_info,
}
use ynetserver_enet.Message.Wire.{
  padding, write_some, write_sized, write_vector, write_padded, write_godot_string, write_one,
  write_two, serialize, encode,
}

abbrev pub some_blob : Bytes → List Item
some_blob [] = []
some_blob (x ∷ b) = blob (x ∷ b) ∷ []

abbrev pub vector_items : Bytes → List Item
vector_items b = uint w32 (length b) ∷ some_blob b

abbrev pub string_items : Bytes → List Item
string_items s =
    uint w32 4 ∷ uint w32 (length s) ∷ some_blob s ++ some_blob (replicate (padding (length s)) 0)

abbrev pub items : AnyMessage → List Item
items (base t) = uint w8 t ∷ []
items (connection t id) = uint w8 t ∷ uint w16 id ∷ []
items (rpc t k b) = uint w8 t ∷ uint w16 k ∷ vector_items b
items (text t s) = uint w8 t ∷ string_items s
items (room_setting t s) = uint w8 t ∷ string_items s
items (create_with_password t s u) = uint w8 t ∷ string_items s ++ string_items u
items (join_with_password t s u) = uint w8 t ∷ string_items s ++ string_items u
items (room_joined t s u) = uint w8 t ∷ string_items s ++ string_items u
items (packet p) =
    uint w8 p.type
    ∷ uint w8 p.channel
    ∷ uint w8 p.reliability_flags
    ∷ uint w32 p.target_client_id
    ∷ vector_items p.packet_data
items (room_info t s) = uint w8 t ∷ string_items s

abbrev pub AllFit : List Item → Type 0
AllFit [] = Unit
AllFit (i ∷ is) = Fits i × AllFit is

-- Every field is within its type, and every string shorter than 2 ^ 32.
abbrev pub IsValid : AnyMessage → Type 0
IsValid m = AllFit (items m)

pub total-append : (is js : List Item) → total (is ++ js) ≡ total is + total js
total-append [] js = omega arith
total-append (i ∷ is) js = omega (arith, total-append is js)

pub AllFit-append : (is js : List Item) → AllFit (is ++ js) → AllFit is × AllFit js
AllFit-append [] js h = (tt, h)
AllFit-append (i ∷ is) js h = let (a, b) = AllFit-append is js h.1 in ((h.0, a), b)

whole : (b : Bytes) → length b < limit w32 → length b % limit w32 ≡ length b
whole b h = omega arith

take_whole : (b : Bytes) → take (length b) b ≡ b
take_whole b = subst_nil (take-append b [])
  where
    subst_nil : take (length b) (b ++ []) ≡ b → take (length b) b ≡ b
    subst_nil e = rw (append-nil b) at e

module _ ⦃io : Stream⦄ (laws : Laws io) where
  -- `f` writes the items `is`, or does not fit.
  record Puts (f : io.Writer → Option io.Writer) (is : List Item) : Type 0 where
    fits :
        (o : io.Writer)
        → total is ≤ laws.room o
        → (p : io.Writer) × (f o ≡ some p)
          × (laws.room p + total is ≡ laws.room o)
          × (laws.written p ≡ laws.written o ++ is)
    full : (o : io.Writer) → laws.room o < total is → f o ≡ none

  Puts-uint : (w : Width) (v : ℕ) → v < limit w → Puts (io.put_uint w v) (uint w v ∷ [])
  Puts-uint w v h = record {
    fits = λ o r.
        let (p, e, room, written) = laws.put_uint_fits w v o h (omega arith) in
        (p, e, omega arith, written);
    full = λ o r. laws.put_uint_full w v o (omega arith);
  }

  Puts-some : (b : Bytes) → Puts (write_some b) (some_blob b)
  unfolding write_some
  Puts-some [] = record {
    fits = λ o r. (o, refl, omega arith, sym (append-nil _));
    full = λ o r. absurd (omega arith);
  }
  Puts-some (x ∷ b) = record {
    fits = λ o r.
        let (p, e, room, written) = laws.put_bytes_fits (x ∷ b) o (omega arith) in
        (p, e, omega arith, written);
    full = λ o r. laws.put_bytes_full (x ∷ b) o (omega arith);
  }

  Puts-bind :
      {f g : io.Writer → Option io.Writer} {is js : List Item}
      → Puts f is
      → Puts g js
      → Puts (λ o. f o >>= g) (is ++ js)
  Puts-bind {f} {g} {is} {js} pf pg = record {
    fits = λ o r.
        let (p, e, room, written) = pf.fits o (omega (arith, total-append is js)) in
        let (q, e', room', written') = pg.fits p (omega (arith, total-append is js)) in
        (
          q,
          rw e e',
          omega (arith, total-append is js),
          written' ∙ ap (λ l. l ++ js) written ∙ append_assoc (laws.written o) is js,
        );
    full = λ o r. first_or_second o (total-append is js) r (le_or_lt (total is) (laws.room o));
  }
    where
      le_or_lt : (a b : ℕ) → (a ≤ b) ⊎ (b < a)
      le_or_lt a b = omega arith

      first_or_second :
          (o : io.Writer)
          → total (is ++ js) ≡ total is + total js
          → laws.room o < total (is ++ js)
          → (total is ≤ laws.room o) ⊎ (laws.room o < total is)
          → (f o >>= g) ≡ none
      first_or_second o t r (inl h) =
          let (p, e, room, written) = pf.fits o h in rw e (pg.full p (omega arith))
      first_or_second o t r (inr h) = rw (pf.full o h)

  Puts-vector : (b : Bytes) → length b < limit w32 → Puts (write_vector b) (vector_items b)
  unfolding write_vector
  Puts-vector b h =
      subst (λ n. Puts (write_sized n b) (vector_items b)) (sym (whole b h))
        (subst (λ c. Puts (λ o. io.put_uint w32 (length b) o >>= write_some c) (vector_items b))
          (sym (take_whole b)) (Puts-bind (Puts-uint w32 (length b) h) (Puts-some b)))

  Puts-string : (s : Bytes) → length s < limit w32 → Puts (write_godot_string s) (string_items s)
  unfolding write_godot_string
  Puts-string s h =
      subst (λ n. Puts (write_padded n s) (string_items s)) (sym (whole s h))
        (subst (λ c. Puts (sized c) (string_items s)) (sym (take_whole s))
          (Puts-bind (Puts-uint w32 4 (omega arith)) (
            Puts-bind (Puts-uint w32 (length s) h)
              (Puts-bind (Puts-some s) (Puts-some (replicate (padding (length s)) 0))))))
    where
      sized : Bytes → io.Writer → Option io.Writer
      sized c o = do
        o₁ ← io.put_uint w32 4 o
        o₂ ← io.put_uint w32 (length s) o₁
        o₃ ← write_some c o₂
        write_some (replicate (padding (length s)) 0) o₃

  Puts-one :
      (t : ℕ) (s : Bytes)
      → AllFit (uint w8 t ∷ string_items s)
      → Puts (write_one t s) (uint w8 t ∷ string_items s)
  unfolding write_one
  Puts-one t s h = Puts-bind (Puts-uint w8 t h.0) (Puts-string s h.1.1.0)

  Puts-two :
      (t : ℕ) (s u : Bytes)
      → AllFit (uint w8 t ∷ string_items s ++ string_items u)
      → Puts (write_two t s u) (uint w8 t ∷ string_items s ++ string_items u)
  unfolding write_two
  Puts-two t s u h = Puts-bind (Puts-uint w8 t h.0) (
      Puts-bind (Puts-string s h.1.1.0)
        (Puts-string u (AllFit-append (string_items s) (string_items u) h.1).1.1.0))

  -- `serialize` writes the message's items.
  serialize-Puts : (m : AnyMessage) → IsValid m → Puts (serialize m) (items m)
  unfolding serialize
  serialize-Puts (base t) h = Puts-uint w8 t h.0
  serialize-Puts (connection t id) h = Puts-bind (Puts-uint w8 t h.0) (Puts-uint w16 id h.1.0)
  serialize-Puts (rpc t k b) h =
      Puts-bind (Puts-uint w8 t h.0) (Puts-bind (Puts-uint w16 k h.1.0) (Puts-vector b h.1.1.0))
  serialize-Puts (text t s) h = Puts-one t s h
  serialize-Puts (room_setting t s) h = Puts-one t s h
  serialize-Puts (create_with_password t s u) h = Puts-two t s u h
  serialize-Puts (join_with_password t s u) h = Puts-two t s u h
  serialize-Puts (room_joined t s u) h = Puts-two t s u h
  serialize-Puts (packet p) h = Puts-bind (Puts-uint w8 p.type h.0) (
      Puts-bind (Puts-uint w8 p.channel h.1.0) (
        Puts-bind (Puts-uint w8 p.reliability_flags h.1.1.0) (
          Puts-bind (Puts-uint w32 p.target_client_id h.1.1.1.0)
            (Puts-vector p.packet_data h.1.1.1.1.0))))
  serialize-Puts (room_info t s) h = Puts-one t s h

  -- A valid message that fits its buffer is written, and the stream holds exactly its items.
  pub encode_fits :
      (cap : ℕ) (m : AnyMessage)
      → IsValid m
      → total (items m) ≤ cap
      → (o : io.Writer) × (encode cap m ≡ some (io.flush o)) × (laws.written o ≡ items m)
  unfolding encode
  encode_fits cap m v h =
      let (o, e, room, written) =
        (serialize-Puts m v).fits (io.open_writer cap) (omega (arith, laws.room-open cap)) in
      (o, rw e, written ∙ ap (λ l. l ++ items m) (laws.written-open cap))

  -- On streams that keep their laws, a message whose fields are within their types and that is
  -- larger than its buffer is not encoded: the process ends.
  pub encode_full :
      (cap : ℕ) (m : AnyMessage) → IsValid m → cap < total (items m) → encode cap m ≡ none
  unfolding encode
  encode_full cap m v h =
      rw ((serialize-Puts m v).full (io.open_writer cap) (omega (arith, laws.room-open cap)))
