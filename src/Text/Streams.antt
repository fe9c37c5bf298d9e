-- ===== src/Text/Streams.antt =====
-- Reading from a `std::istringstream`: what `>>` and `std::getline` leave of the text.
pub mod Words
use ynetserver_enet.Base.{
  ℕ, zero, suc, Bool, true, false, [], ◌∷◌, none, some, Bytes, leb, ◌==◌, if◌then◌else◌, ◌^◌, ◌-◌,
}
use ynetserver_enet.Base.Int.{ℤ, pos, negsuc}
use ynetserver_enet.Text.{number, is_space, skip_space}

-- The characters up to the next space, and the rest.
unfoldable pub word : Bytes → Bytes × Bytes
unfolding is_space
word [] = ([], [])
word (c ∷ s) = let rest = word s in if is_space c then ([], c ∷ s) else (c ∷ rest.0, rest.1)

-- `in >> text` on an empty text: the text is still empty exactly if the read fails.
unfoldable pub read_word : Bytes → Bytes × Bytes
unfolding word skip_space
read_word s = word (skip_space s)

-- A value outside `int` becomes the nearest one inside.
clamped : Bool → ℕ → ℤ
clamped false n = if leb n (2 ^ 31 - 1) then pos n else pos (2 ^ 31 - 1)
clamped true n = elim n [
  | zero ↦ pos 0
  | suc k ↦ if leb k (2 ^ 31 - 1) then negsuc k else negsuc (2 ^ 31 - 1)
]

-- No digit: the value is 0.
digits_read : Bool → Bytes → ℤ
unfolding number clamped
digits_read minus s = elim (number none s) [ none ↦ pos 0 | some n ↦ clamped minus n ]

int_at : ℤ → Bytes → ℤ
unfolding digits_read
int_at before [] = before
int_at before (c ∷ s) =
    if c == b'-'
    then digits_read true s
    else if c == b'+'
    then digits_read false s
    else digits_read false (c ∷ s)

-- `in >> n`: at the end of the text `n` keeps the value from before.
unfoldable pub read_int : ℤ → Bytes → ℤ
unfolding int_at skip_space
read_int before s = int_at before (skip_space s)

-- `std::getline(in, text)`: the characters up to the end of the line.
unfoldable pub get_line : Bytes → Bytes
get_line [] = []
get_line (c ∷ s) = if c == b'\n' then [] else c ∷ get_line s

-- The leading space, if there is one, is cut off.
unfoldable pub without_space : Bytes → Bytes
without_space [] = []
without_space (c ∷ s) = if c == b' ' then s else c ∷ s
