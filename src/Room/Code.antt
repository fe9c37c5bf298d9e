-- ===== src/Room/Code.antt =====
-- ynetserver.cpp: `isValidRoomCode` and `generateRoomCode`. A random engine is the sequence of its
-- draws; a draw below n is taken modulo n.
pub mod Valid
use ynetserver_enet.Base.{
  ℕ, zero, suc, ◌+◌, ◌%◌, Bool, ◌&&◌, ◌||◌, [], ◌∷◌, ◌++◌, Bytes, length, all, ◌==◌, if◌then◌else◌,
}
use ynetserver_enet.Base.Dict.{contains}
use ynetserver_enet.Room.{room_code_chars, room_code_chars_sq}

-- The draws still to come.
abbrev pub Random : Type 0
Random = ℕ → ℕ

-- `dis(gen)` for a distribution over 0 … n - 1, and the engine after it
unfoldable pub draw : ℕ → Random → ℕ × Random
draw n r = (r 0 % n, λ i. r (suc i))

unfoldable pub char_at : Bytes → ℕ → ℕ
char_at [] i = 0
char_at (c ∷ s) zero = c
char_at (c ∷ s) (suc i) = char_at s i

unfoldable pub is_valid_room_code : Bytes → Bool
unfolding contains
is_valid_room_code code = (length code == 6) && all (λ c. contains c room_code_chars) code

-- `for (i = 6 - left; i < 6; ++i)`
add_chars : ℕ → ℕ → Bytes → Random → Bytes × Random
unfolding draw char_at
add_chars zero i code r = (code, r)
add_chars (suc left) i code r =
    let chars = if (i == 1) || (i == 3) then room_code_chars_sq else room_code_chars in
    let (k, r') = draw (length chars) r in add_chars left (i + 1) (code ++ char_at chars k ∷ []) r'

unfoldable pub generate_room_code : Random → Bytes × Random
unfolding add_chars
generate_room_code r = add_chars 6 0 [] r
