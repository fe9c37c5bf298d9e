-- ===== src/Stream.antt =====
-- The calls that the program makes to `serialize::WriteStream` and `serialize::ReadStream` of
-- thirdparty/serialize.h, which is a library: its streams are a parameter. `Laws` is what their
-- documentation promises and the program relies on.
pub mod LittleEndian
use ynetserver_enet.Base.{
  ℕ, ◌+◌, ◌-◌, ◌*◌, ◌^◌, ◌≤◌, ◌<◌, ◌≡◌, List, [], ◌∷◌, ◌++◌, Option, none, some, Bytes, length,
}

-- The widths of `serialize_uint8`, `serialize_uint16` and `serialize_uint32`.
pub data Width : Type 0 where
  w8 w16 w32 : Width

abbrev pub octets : Width → ℕ
octets w8 = 1
octets w16 = 2
octets w32 = 4

abbrev pub limit : Width → ℕ
limit w8 = 2 ^ 8
limit w16 = 2 ^ 16
limit w32 = 2 ^ 32

-- A write past the end of the buffer fails an assertion, which ends the process: `none`.
-- A read past the end of the data returns false: `none`.
pub record Stream : Type 1 where
  pub Writer : Type 0
  pub Reader : Type 0
  pub open_writer : ℕ → Writer
  pub put_uint : Width → ℕ → Writer → Option Writer
  pub put_bytes : Bytes → Writer → Option Writer
  pub flush : Writer → Bytes
  pub open_reader : Bytes → Reader
  pub get_uint : Width → Reader → Option (ℕ × Reader)
  pub get_bytes : ℕ → Reader → Option (Bytes × Reader)

-- One thing written to a stream.
pub data Item : Type 0 where
  uint : Width → ℕ → Item
  blob : Bytes → Item

abbrev pub size_of : Item → ℕ
size_of (uint w v) = octets w
size_of (blob b) = length b

-- A value that its width can carry.
abbrev pub Fits : Item → Type 0
Fits (uint w v) = v < limit w
Fits (blob b) = Unit

abbrev pub total : List Item → ℕ
total [] = 0
total (i ∷ is) = size_of i + total is

-- `room` is the space left in the buffer and `written` what went in so far. `Holds is r` says
-- that the reader `r` yields the items `is` next.
pub record Laws (io : Stream) : Type 1 where
  pub room : io.Writer → ℕ
  pub written : io.Writer → List Item
  pub Holds : List Item → io.Reader → Type 0
  pub room-open : (n : ℕ) → room (io.open_writer n) ≡ n
  pub written-open : (n : ℕ) → written (io.open_writer n) ≡ []
  pub put_uint_fits :
      (w : Width) (v : ℕ) (o : io.Writer)
      → v < limit w
      → octets w ≤ room o
      → (p : io.Writer) × (io.put_uint w v o ≡ some p)
        × (room p + octets w ≡ room o)
        × (written p ≡ written o ++ uint w v ∷ [])
  pub put_uint_full :
      (w : Width) (v : ℕ) (o : io.Writer) → room o < octets w → io.put_uint w v o ≡ none
  pub put_bytes_fits :
      (b : Bytes) (o : io.Writer)
      → length b ≤ room o
      → (p : io.Writer) × (io.put_bytes b o ≡ some p)
        × (room p + length b ≡ room o)
        × (written p ≡ written o ++ blob b ∷ [])
  pub put_bytes_full : (b : Bytes) (o : io.Writer) → room o < length b → io.put_bytes b o ≡ none
  pub open-flush : (o : io.Writer) → Holds (written o) (io.open_reader (io.flush o))
  pub first_byte :
      (o : io.Writer) (v : ℕ) (is : List Item)
      → written o ≡ uint w8 v ∷ is
      → v < 2 ^ 8
      → (rest : Bytes) × (io.flush o ≡ v ∷ rest)
  pub get_uint-Holds :
      (w : Width) (v : ℕ) (is : List Item) (r : io.Reader)
      → Holds (uint w v ∷ is) r
      → v < limit w
      → (q : io.Reader) × (io.get_uint w r ≡ some (v, q)) × Holds is q
  pub get_bytes-Holds :
      (b : Bytes) (is : List Item) (r : io.Reader)
      → Holds (blob b ∷ is) r
      → (q : io.Reader) × (io.get_bytes (length b) r ≡ some (b, q)) × Holds is q
