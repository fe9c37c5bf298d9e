-- ===== src/Text.antt =====
-- The parts of the C++ library that the program reads and writes text with: `std::to_string` and
-- `operator<<` on unsigned numbers, `std::stoi`, `std::string::find`.
pub mod Finds
pub mod Joined
pub mod Decimal
pub mod Streams
use ynetserver_enet.Base.{
  ℕ, zero, suc, ◌+◌, ◌-◌, ◌*◌, ◌/◌, ◌%◌, ◌^◌, Bool, true, false, ◌&&◌, ◌||◌, List, [], ◌∷◌, ◌++◌,
  Option, none, some, Bytes, ltb, leb, ◌==◌, if◌then◌else◌, bytes, ◌>>=◌,
}
use ynetserver_enet.Base.Int.{ℤ, pos, negsuc}

-- The digits of n before those of `acc`; n < 10 ^ fuel is enough fuel.
unfoldable pub digits : ℕ → ℕ → Bytes → Bytes
digits zero n acc = acc
digits (suc f) n acc =
    let rest = digits f (n / 10) ((b'0' + n % 10) ∷ acc) in
    if ltb n 10 then (b'0' + n) ∷ acc else rest

unfoldable pub to_string : ℕ → Bytes
unfolding digits
to_string n = digits (suc n) n []

unfoldable pub is_space : ℕ → Bool
is_space c = (c == 32) || (leb 9 c && leb c 13)

unfoldable pub is_digit : ℕ → Bool
is_digit c = leb b'0' c && leb c b'9'

-- The value of the digits at the front, or `none` if there is none. What follows is ignored.
unfoldable pub number : Option ℕ → Bytes → Option ℕ
unfolding is_digit
number acc [] = acc
number acc (c ∷ s) =
    let n : ℕ = elim acc [ none ↦ 0 | some k ↦ k ] in
    let rest = number (some (n * 10 + (c - b'0'))) s in if is_digit c then rest else acc

abbrev int_max : ℕ
int_max = 2 ^ 31 - 1

-- `std::out_of_range` outside `int`.
in_range : Bool → ℕ → Option ℤ
in_range false n = if leb n int_max then some (pos n) else none
in_range true zero = some (pos 0)
in_range true (suc n) = if leb n int_max then some (negsuc n) else none

signed : Bool → Bytes → Option ℤ
unfolding number in_range
signed minus s = do n ← number none s; in_range minus n

after_space : Bytes → Option ℤ
unfolding signed
after_space [] = none
after_space (c ∷ s) =
    if c == b'-' then signed true s else if c == b'+' then signed false s else signed false (c ∷ s)

skip_space : Bytes → Bytes
unfolding is_space
skip_space [] = []
skip_space (c ∷ s) = let rest = skip_space s in if is_space c then rest else c ∷ s

-- `none` where `std::stoi` throws.
unfoldable pub stoi : Bytes → Option ℤ
unfolding after_space skip_space
stoi s = after_space (skip_space s)

-- `static_cast<uint16_t>` and `static_cast<uint32_t>` of an `int`.
abbrev pub wrap : ℕ → ℤ → ℕ
wrap w (pos n) = n % 2 ^ w
wrap w (negsuc n) = (2 ^ w - suc n % 2 ^ w) % 2 ^ w

unfoldable pub starts_with : Bytes → Bytes → Bool
starts_with [] s = true
starts_with (c ∷ p) [] = false
starts_with (c ∷ p) (d ∷ s) = (c == d) && starts_with p s

-- `s.find(p) != std::string::npos`
unfoldable pub finds : Bytes → Bytes → Bool
unfolding starts_with
finds p [] = starts_with p []
finds p (c ∷ s) = starts_with p (c ∷ s) || finds p s
