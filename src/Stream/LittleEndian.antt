-- ===== src/Stream/LittleEndian.antt =====
-- A concrete stream: whole bytes, the least significant first.
use ynetserver_enet.Base.{
  ℕ, zero, suc, ◌+◌, ◌-◌, ◌*◌, ◌/◌, ◌%◌, ◌^◌, ◌≤◌, ◌<◌, ◌≡◌, refl, ap, sym, List, [], ◌∷◌, ◌++◌,
  append_assoc, append-nil, Option, none, some, arith, Bytes, length, take, drop, take-append,
  drop-append, length-append, leb, if◌then◌else◌, ◌>>=◌,
}
use ynetserver_enet.Stream.{
  Stream, Laws, Width, w8, w16, w32, octets, limit, Item, uint, blob, size_of,
}

unfoldable pub to_le : ℕ → ℕ → Bytes
to_le zero v = []
to_le (suc n) v = (v % 256) ∷ to_le n (v / 256)

unfoldable pub take_le : ℕ → Bytes → Option (ℕ × Bytes)
take_le zero r = some (0, r)
take_le (suc n) [] = none
take_le (suc n) (b ∷ r) = do (v, q) ← take_le n r; some (b + 256 * v, q)

take_le-to_le :
    (n v : ℕ) (rest : Bytes) → v < 256 ^ n → take_le n (to_le n v ++ rest) ≡ some (v, rest)
unfolding take_le to_le
take_le-to_le zero v rest h = ground arith
take_le-to_le (suc n) v rest h = rw (take_le-to_le n (v / 256) rest (ground arith)) (ground arith)

-- The bytes of the items.
unfoldable pub encoded : List Item → Bytes
encoded [] = []
encoded (uint w v ∷ is) = to_le (octets w) v ++ encoded is
encoded (blob b ∷ is) = b ++ encoded is

pub record Writer : Type 0 where
  pub room : ℕ
  pub items : List Item

unfoldable pub put : Item → Writer → Option Writer
put i o =
    if leb (size_of i) o.room
    then some (record { room = o.room - size_of i; items = o.items ++ i ∷ [] })
    else none

unfoldable pub get_bytes : ℕ → Bytes → Option (Bytes × Bytes)
get_bytes n r = if leb n (length r) then some (take n r, drop n r) else none

abbrev pub little_endian : Stream
little_endian = record {
  Writer = Writer;
  Reader = Bytes;
  open_writer = λ n. record { room = n; items = [] };
  put_uint = λ w v. put (uint w v);
  put_bytes = λ b. put (blob b);
  flush = λ o. encoded o.items;
  open_reader = λ r. r;
  get_uint = λ w. take_le (octets w);
  get_bytes = get_bytes;
}

abbrev Holds : List Item → Bytes → Type 0
Holds is r = (rest : Bytes) × (r ≡ encoded is ++ rest)

put_fits :
    (i : Item) (o : Writer)
    → size_of i ≤ o.room
    → (p : Writer) × (put i o ≡ some p)
      × (p.room + size_of i ≡ o.room)
      × (p.items ≡ o.items ++ i ∷ [])
unfolding put
put_fits i o h = (
  record { room = o.room - size_of i; items = o.items ++ i ∷ [] },
  ground arith,
  omega arith,
  refl,
)

put_full : (i : Item) (o : Writer) → o.room < size_of i → put i o ≡ none
unfolding put
put_full i o h = ground arith

first_byte :
    (o : Writer) (v : ℕ) (is : List Item)
    → o.items ≡ uint w8 v ∷ is
    → v < 2 ^ 8
    → (rest : Bytes) × (encoded o.items ≡ v ∷ rest)
unfolding encoded to_le
first_byte o v is e h = (encoded is, rw e (ap (λ b. b ∷ encoded is) (omega arith)))

get_uint-Holds :
    (w : Width) (v : ℕ) (is : List Item) (r : Bytes)
    → Holds (uint w v ∷ is) r
    → v < limit w
    → (q : Bytes) × (take_le (octets w) r ≡ some (v, q)) × Holds is q
unfolding encoded
get_uint-Holds w v is r (rest, e) h = (
  encoded is ++ rest,
  rw (e, append_assoc) (take_le-to_le (octets w) v _ (below w v h)),
  (rest, refl),
)
  where
    below : (w : Width) (v : ℕ) → v < limit w → v < 256 ^ octets w
    below w8 v h = h
    below w16 v h = h
    below w32 v h = h

get_bytes-Holds :
    (b : Bytes) (is : List Item) (r : Bytes)
    → Holds (blob b ∷ is) r
    → (q : Bytes) × (get_bytes (length b) r ≡ some (b, q)) × Holds is q
unfolding encoded get_bytes
get_bytes-Holds b is r (rest, e) = (
  encoded is ++ rest,
  rw (e, append_assoc)
      (ground (
        arith,
        take-append b (encoded is ++ rest),
        drop-append b (encoded is ++ rest),
        length-append b (encoded is ++ rest),
      )),
  (rest, refl),
)

pub little_endian_laws : Laws little_endian
little_endian_laws = record {
  room = λ o. o.room;
  written = λ o. o.items;
  Holds = Holds;
  room-open = λ n. refl;
  written-open = λ n. refl;
  put_uint_fits = λ w v o h fits. put_fits (uint w v) o fits;
  put_uint_full = λ w v o. put_full (uint w v) o;
  put_bytes_fits = λ b o. put_fits (blob b) o;
  put_bytes_full = λ b o. put_full (blob b) o;
  open-flush = λ o. ([], sym (append-nil _));
  first_byte = first_byte;
  get_uint-Holds = get_uint-Holds;
  get_bytes-Holds = get_bytes-Holds;
}
