-- ===== src/Text/Finds.antt =====
-- `std::string::find` against what it means that a text stands in another.
use ynetserver_enet.Base.{
  ◌≡◌, refl, sym, ap, ◌∙◌, [], ◌∷◌, ◌++◌, append_assoc, true, Bytes, Bool-cases, inl, inr, arith,
}
use ynetserver_enet.Text.{starts_with, finds}

-- `part` stands in `whole`.
abbrev pub Contains : Bytes → Bytes → Type 0
Contains part whole = (before : Bytes) × (after : Bytes) × (whole ≡ before ++ (part ++ after))

-- It is enough that it stands behind something else.
pub behind : (a part whole : Bytes) → Contains part whole → Contains part (a ++ whole)
behind a part whole (before, after, e) =
    (a ++ before, after, ap (λ w. a ++ w) e ∙ sym (append_assoc a before (part ++ after)))

starts_with-prefix : (p s : Bytes) → starts_with p s ≡ true → (after : Bytes) × (s ≡ p ++ after)
unfolding starts_with
starts_with-prefix [] s h = (s, refl)
starts_with-prefix (c ∷ p) [] h = absurd (ground arith)
starts_with-prefix (c ∷ p) (d ∷ s) h =
    let (after, e) = starts_with-prefix p s (ground arith) in (after, ground arith)

starts_with-append : (p after : Bytes) → starts_with p (p ++ after) ≡ true
unfolding starts_with
starts_with-append [] after = refl
starts_with-append (c ∷ p) after = ground (arith, starts_with-append p after)

pub finds-Contains : (p s : Bytes) → finds p s ≡ true → Contains p s
unfolding finds
finds-Contains p [] h = let (after, e) = starts_with-prefix p [] h in ([], after, e)
finds-Contains p (c ∷ s) h = elim (Bool-cases (starts_with p (c ∷ s))) [
  | inl here ↦ let (after, e) = starts_with-prefix p (c ∷ s) here in ([], after, e)
  | inr later ↦ behind (c ∷ []) p s (finds-Contains p s (ground arith))
]

finds-append : (p before after : Bytes) → finds p (before ++ (p ++ after)) ≡ true
unfolding finds
finds-append [] [] [] = unfold starts_with in refl
finds-append [] [] (c ∷ after) = unfold starts_with in refl
finds-append (c ∷ p) [] after = ground (arith, starts_with-append (c ∷ p) after)
finds-append p (c ∷ before) after = ground (arith, finds-append p before after)

pub Contains-finds : (p s : Bytes) → Contains p s → finds p s ≡ true
Contains-finds p s (before, after, e) = rw e (finds-append p before after)
