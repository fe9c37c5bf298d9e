-- ===== src/Text/Streams/Words.antt =====
-- What `>>` reads of words and numbers that are written with spaces between them.
use ynetserver_enet.Base.{
  ℕ, suc, ◌<◌, ◌≤◌, ◌^◌, ◌≡◌, refl, sym, ◌∙◌, subst, Bool, true, false, [], ◌∷◌, ◌++◌, none, some,
  Bytes, ◌==◌, arith, append-nil,
}
use ynetserver_enet.Base.Int.{ℤ, pos, negsuc}
use ynetserver_enet.Text.{number, is_space, skip_space, to_string}
use ynetserver_enet.Text.Decimal.{number-to_string, to_string-head}
use ynetserver_enet.Text.Streams.{get_line, word, read_word, clamped, digits_read, int_at, read_int}

-- Without spaces.
abbrev pub NoSpace : Bytes → Type 0
NoSpace [] = Unit
NoSpace (c ∷ s) = (is_space c ≡ false) × NoSpace s

-- Without an end of line.
abbrev pub IsLine : Bytes → Type 0
IsLine [] = Unit
IsLine (c ∷ s) = ((c == b'\n') ≡ false) × IsLine s

pub get_line-IsLine : (s : Bytes) → IsLine s → get_line s ≡ s
unfolding get_line
get_line-IsLine [] h = refl
get_line-IsLine (c ∷ s) h = rw (h.0, get_line-IsLine s h.1) refl

-- A word is not empty and has no spaces.
abbrev pub IsWord : Bytes → Type 0
IsWord [] = ⊥
IsWord (c ∷ s) = NoSpace (c ∷ s)

word_end : (s : Bytes) → NoSpace s → word s ≡ (s, [])
unfolding word
word_end [] h = refl
word_end (c ∷ s) h = rw (h.0, word_end s h.1) refl

word_space : (s r : Bytes) → NoSpace s → word (s ++ b' ' ∷ r) ≡ (s, b' ' ∷ r)
unfolding word is_space
word_space [] r h = refl
word_space (c ∷ s) r h = rw (h.0, word_space s r h.1) refl

skip_space-word : (s r : Bytes) → IsWord s → skip_space (s ++ r) ≡ s ++ r
unfolding skip_space
skip_space-word [] r h = absurd h
skip_space-word (c ∷ s) r h = rw h.0 refl

NoSpace-IsWord : (s : Bytes) → IsWord s → NoSpace s
NoSpace-IsWord [] h = absurd h
NoSpace-IsWord (c ∷ s) h = h

-- The last word.
pub read_word_end : (s : Bytes) → IsWord s → read_word (b' ' ∷ s) ≡ (s, [])
unfolding read_word skip_space is_space
read_word_end s h =
    rw (sym (append-nil s))
      (rw (skip_space-word s [] h) (rw (append-nil s) (word_end s (NoSpace-IsWord s h))))

-- A word with more behind it.
pub read_word_space : (s r : Bytes) → IsWord s → read_word (b' ' ∷ (s ++ b' ' ∷ r)) ≡ (s, b' ' ∷ r)
unfolding read_word skip_space is_space
read_word_space s r h = rw (skip_space-word s (b' ' ∷ r) h) (word_space s r (NoSpace-IsWord s h))

digits_read-number :
    (minus : Bool) (s : Bytes) (n : ℕ)
    → number none s ≡ some n
    → digits_read minus s ≡ clamped minus n
unfolding digits_read
digits_read-number minus s n e = rw (e, digits_read) refl

clamped_pos : (n : ℕ) → n < 2 ^ 31 → clamped false n ≡ pos n
unfolding clamped
clamped_pos n h = ground arith

clamped_negsuc : (n : ℕ) → n < 2 ^ 31 → clamped true (suc n) ≡ negsuc n
unfolding clamped
clamped_negsuc n h = ground arith

int_at-digit :
    (before : ℤ) (c n : ℕ) (s : Bytes)
    → 48 ≤ c
    → c ≤ 57
    → number none (c ∷ s) ≡ some n
    → n < 2 ^ 31
    → int_at before (c ∷ s) ≡ pos n
unfolding int_at
int_at-digit before c n s lo hi e h =
    let minus : (c == 45) ≡ false = ground arith in
    let plus : (c == 43) ≡ false = ground arith in
    rw (minus, plus) (digits_read-number false (c ∷ s) n e ∙ clamped_pos n h)

-- A number of `int` that is written after a space.
pub read_int_pos : (before : ℤ) (n : ℕ) → n < 2 ^ 31 → read_int before (b' ' ∷ to_string n) ≡ pos n
unfolding read_int skip_space is_space
read_int_pos before n h =
    let (c, s, e, lo, hi) = to_string-head n in
    let value : number none (c ∷ s) ≡ some n =
      subst (λ t. number none t ≡ some n) e (number-to_string n) in
    let space : is_space c ≡ false = unfold is_space in ground arith in
    rw (e, space) (int_at-digit before c n s lo hi value h)

pub read_int_negsuc :
    (before : ℤ) (n : ℕ) → n < 2 ^ 31 → read_int before (b' ' ∷ b'-' ∷ to_string (suc n)) ≡ negsuc n
unfolding read_int skip_space is_space int_at
read_int_negsuc before n h =
    digits_read-number true (to_string (suc n)) (suc n) (number-to_string (suc n))
    ∙ clamped_negsuc n h
