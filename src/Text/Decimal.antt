-- ===== src/Text/Decimal.antt =====
-- `std::to_string` and `std::stoi`, one after the other.
use ynetserver_enet.Base.{
  ℕ, zero, suc, ◌+◌, ◌-◌, ◌/◌, ◌%◌, ◌^◌, ◌<◌, ◌≤◌, ◌≡◌, refl, sym, subst, ◌∙◌, [], ◌∷◌, none, some,
  Bytes, ltb, leb, Bool-cases, inl, inr, arith, length, true, false, ◌==◌,
}
use ynetserver_enet.Base.Int.{pos}
use ynetserver_enet.Text.{
  digits, to_string, number, stoi, is_digit, is_space, skip_space, after_space, signed, in_range,
}

number-digits : (f n : ℕ) (acc : Bytes) → n < f → number none (digits f n acc) ≡ number (some n) acc
unfolding number digits is_digit
number-digits zero n acc h = absurd (omega arith)
number-digits (suc f) n acc h = elim (Bool-cases (ltb n 10)) [
  | inl small ↦ ground arith
  | inr large ↦ rw large (number-digits f (n / 10) _ (ground arith) ∙ ground arith)
]

digits-head :
    (f n : ℕ) (acc : Bytes)
    → n < f
    → (c : ℕ) × (s : Bytes) × (digits f n acc ≡ c ∷ s) × (48 ≤ c) × (c ≤ 57)
unfolding digits
digits-head zero n acc h = absurd (omega arith)
digits-head (suc f) n acc h = elim (Bool-cases (ltb n 10)) [
  | inl small ↦ rw small (48 + n, acc, refl, omega arith, ground arith)
  | inr large ↦ rw large (digits-head f (n / 10) _ (ground arith))
]

-- The length of what `std::to_string` writes.
digits-length :
    (f n k : ℕ) (acc : Bytes) → n < 10 ^ k → 1 ≤ k → length (digits f n acc) ≤ k + length acc
unfolding digits
digits-length zero n k acc h one = omega arith
digits-length (suc f) n zero acc h one = absurd (omega arith)
digits-length (suc f) n (suc zero) acc h one = rw (ltb-true n h) (omega arith)
  where
    ltb-true : (n : ℕ) → n < 10 ^ 1 → ltb n 10 ≡ true
    ltb-true n h = ground arith
digits-length (suc f) n (suc (suc k)) acc h one = elim (Bool-cases (ltb n 10)) [
  | inl small ↦ rw small (omega arith)
  | inr large ↦ rw large (
      omega
        (arith, digits-length f (n / 10) (suc k) ((48 + n % 10) ∷ acc) (omega arith) (omega arith)))
]

pub length-to_string : (n k : ℕ) → n < 10 ^ k → 1 ≤ k → length (to_string n) ≤ k
unfolding to_string
length-to_string n k h one = omega (arith, digits-length (suc n) n k [] h one)

-- A text that starts with a digit has no space and no sign to skip.
stoi-digit :
    (c n : ℕ) (s : Bytes)
    → 48 ≤ c
    → c ≤ 57
    → number none (c ∷ s) ≡ some n
    → n < 2 ^ 31
    → stoi (c ∷ s) ≡ some (pos n)
unfolding stoi skip_space is_space after_space signed in_range
stoi-digit c n s lo hi value small =
    let space : is_space c ≡ false = unfold is_space in ground arith in
    let minus : (c == 45) ≡ false = ground arith in
    let plus : (c == 43) ≡ false = ground arith in
    let range : leb n (2 ^ 31 - 1) ≡ true = ground arith in
    rw (space, minus, plus, value, range) refl

-- Any number below 2 ^ 31 that is written in decimal is read back by stoi.
pub stoi-to_string : (n : ℕ) → n < 2 ^ 31 → stoi (to_string n) ≡ some (pos n)
unfolding to_string
stoi-to_string n h =
    let (c, s, e, lo, hi) = digits-head (suc n) n [] (omega arith) in
    let value : number none (digits (suc n) n []) ≡ some n =
      number-digits (suc n) n [] (omega arith) ∙ unfold number in refl in
    subst (λ t. stoi t ≡ some (pos n)) (sym e)
      (stoi-digit c n s lo hi (subst (λ t. number none t ≡ some n) e value) h)

pub number-to_string : (n : ℕ) → number none (to_string n) ≡ some n
unfolding to_string number
number-to_string n = number-digits (suc n) n [] (omega arith)

-- It starts with a digit.
pub to_string-head : (n : ℕ) → (c : ℕ) × (s : Bytes) × (to_string n ≡ c ∷ s) × (48 ≤ c) × (c ≤ 57)
unfolding to_string
to_string-head n = digits-head (suc n) n [] (omega arith)
