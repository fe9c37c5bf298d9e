-- ===== src/Text/Joined.antt =====
-- Texts put together, as the sources put the pieces of a page or an answer into a string stream.
use ynetserver_enet.Base.{List, [], ◌∷◌, ◌++◌, Bytes, bytes}

-- One after the other.
abbrev pub in_turn : List Bytes → Bytes
in_turn [] = []
in_turn (s ∷ []) = s
in_turn (s ∷ t ∷ rest) = s ++ in_turn (t ∷ rest)

-- With commas between them.
abbrev pub with_commas : List Bytes → Bytes
with_commas [] = []
with_commas (s ∷ []) = s
with_commas (s ∷ t ∷ rest) = s ++ (bytes "," ++ with_commas (t ∷ rest))
