-- ===== src/Room/Code/Valid.antt =====
-- ynetserver.cpp: `generateRoomCode` against `isValidRoomCode`.
use ynetserver_enet.Base.{
  ℕ, zero, suc, ◌+◌, ◌%◌, ◌<◌, ◌≤◌, ◌≡◌, refl, true, Bool, ◌||◌, [], ◌∷◌, ◌++◌, Bytes, length, all,
  ◌==◌, arith, if◌then◌else◌, length-append, Bool-cases, inl, inr,
}
use ynetserver_enet.Base.Dict.{contains}
use ynetserver_enet.Room.{room_code_chars, room_code_chars_sq}
use ynetserver_enet.Room.Code.{
  Random, draw, char_at, add_chars, is_valid_room_code, generate_room_code,
}

all-append :
    (test : ℕ → Bool) (xs ys : Bytes)
    → all test xs ≡ true
    → all test ys ≡ true
    → all test (xs ++ ys) ≡ true
all-append test [] ys h k = k
all-append test (x ∷ xs) ys h k = ground (arith, all-append test xs ys (ground arith) k)

contains-char_at : (s : Bytes) (i : ℕ) → i < length s → contains (char_at s i) s ≡ true
unfolding contains char_at
contains-char_at [] i h = absurd (omega arith)
contains-char_at (c ∷ s) zero h = ground arith
contains-char_at (c ∷ s) (suc i) h = ground (arith, contains-char_at s i (omega arith))

-- The second and the fourth character are drawn from a part of the alphabet.
subset : (c : ℕ) → contains c room_code_chars_sq ≡ true → contains c room_code_chars ≡ true
unfolding contains
subset c h = ground arith

abbrev in_alphabet : ℕ → Bool
in_alphabet c = contains c room_code_chars

abbrev alphabet : ℕ → Bytes
alphabet i = if (i == 1) || (i == 3) then room_code_chars_sq else room_code_chars

drawn :
    (i : ℕ) (r : Random)
    → in_alphabet (char_at (alphabet i) (draw (length (alphabet i)) r).0) ≡ true
unfolding draw
drawn i r = elim (Bool-cases ((i == 1) || (i == 3))) [
  | inl e ↦ rw e (subset _ (contains-char_at room_code_chars_sq (r 0 % 12) (omega arith)))
  | inr e ↦ rw e (contains-char_at room_code_chars (r 0 % 25) (omega arith))
]

add_chars-valid :
    (left i : ℕ) (code : Bytes) (r : Random)
    → all in_alphabet code ≡ true
    → (length (add_chars left i code r).0 ≡ left + length code)
      × (all in_alphabet (add_chars left i code r).0 ≡ true)
unfolding add_chars
add_chars-valid zero i code r h = (omega arith, h)
add_chars-valid (suc left) i code r h =
    let (k, r') = draw (length (alphabet i)) r in
    let next : Bytes = char_at (alphabet i) k ∷ [] in
    let ok : all in_alphabet next ≡ true = ground (arith, drawn i r) in
    let (len, chars) =
      add_chars-valid left (i + 1) (code ++ next) r' (all-append in_alphabet code next h ok) in
    (omega (arith, length-append code next), chars)

-- Whatever the random draws are, a generated room code is a valid one.
pub generate_room_code-valid : (r : Random) → is_valid_room_code (generate_room_code r).0 ≡ true
unfolding is_valid_room_code generate_room_code
generate_room_code-valid r = let (six, chars) = add_chars-valid 6 0 [] r refl in ground arith

-- A valid code is short.
pub valid_length : (code : Bytes) → is_valid_room_code code ≡ true → length code ≤ 6
unfolding is_valid_room_code
valid_length code valid = ground arith
