-- ===== src/Server/Info/Pages.antt =====
-- ynetserver.cpp: the pages of `handleGetRoomList`.
use ynetserver_enet.Base.{
  none, ℕ, zero, suc, ◌+◌, ◌-◌, ◌*◌, ◌^◌, ◌<◌, ◌≤◌, ◌≡◌, refl, ap, sym, ◌∙◌, leb, Bool-cases, inl,
  inr, List, [], ◌∷◌, some, arith, length, take, drop,
}
use ynetserver_enet.Base.Int.{negsuc, pos, pos_part, ◌+ℤ◌, ◌-ℤ◌, ◌*ℤ◌}
use ynetserver_enet.Room.{Room}
use ynetserver_enet.Server.Info.{
  RoomFilters, page, page_from, page_bounds, index, room_at, as_int, min_ℤ,
}

room_at-drop :
    (rs : List Room) (i : ℕ)
    → i < length rs
    → (r : Room) × (room_at rs i ≡ some r) × (drop i rs ≡ r ∷ drop (suc i) rs)
unfolding room_at
room_at-drop [] i h = absurd (omega arith)
room_at-drop (r ∷ rs) zero h = (r, refl, refl)
room_at-drop (r ∷ rs) (suc i) h = room_at-drop rs i (omega arith)

page_from-take :
    (n i : ℕ) (rs : List Room)
    → i + n ≤ length rs
    → page_from n (pos i) rs ≡ some (take n (drop i rs))
unfolding page_from index
page_from-take zero i rs h = refl
page_from-take (suc n) i rs h =
    let (r, here, split) = room_at-drop rs i (omega arith) in
    let next : pos i +ℤ pos 1 ≡ pos (suc i) = ground arith in
    rw here (rw next (rw (page_from-take n (suc i) rs (omega arith)) (rw split refl)))

length-drop : (i : ℕ) (rs : List Room) → length (drop i rs) ≡ length rs - i
length-drop zero rs = omega arith
length-drop (suc i) [] = omega arith
length-drop (suc i) (r ∷ rs) = omega (arith, length-drop i rs)

take-long : (n : ℕ) (rs : List Room) → length rs ≤ n → take (length rs) rs ≡ take n rs
take-long zero [] h = refl
take-long (suc n) [] h = refl
take-long zero (r ∷ rs) h = absurd (omega arith)
take-long (suc n) (r ∷ rs) h = ap (◌∷◌ r) (take-long n rs (omega arith))

drop-long : (i : ℕ) (rs : List Room) → length rs ≤ i → drop i rs ≡ []
drop-long zero [] h = refl
drop-long (suc i) [] h = refl
drop-long zero (r ∷ rs) h = absurd (omega arith)
drop-long (suc i) (r ∷ rs) h = drop-long i rs (omega arith)

take-nil : (n : ℕ) → take {A = Room} n [] ≡ []
take-nil zero = refl
take-nil (suc n) = refl

-- The rounds of the loop, for a page within the numbers of `int`.
bounds_of_page :
    (f : RoomFilters) (count k n : ℕ)
    → f.page_number ≡ pos (suc k)
    → f.page_size ≡ pos n
    → k < 2 ^ 31
    → k * n + n < 2 ^ 31
    → page_bounds f count ≡ some (pos (k * n), min_ℤ (pos (k * n + n)) (pos count))
unfolding page_bounds as_int
bounds_of_page f count k n number size small fits =
    let before : pos (suc k) -ℤ pos 1 ≡ pos k = ground arith in
    let start : pos k *ℤ pos n ≡ pos (k * n) = ground arith in
    let stop : pos (k * n) +ℤ pos n ≡ pos (k * n + n) = ground arith in
    let a : as_int (pos k) ≡ some (pos k) = ground arith in
    let b : as_int (pos (k * n)) ≡ some (pos (k * n)) = ground arith in
    let c : as_int (pos (k * n + n)) ≡ some (pos (k * n + n)) = ground arith in
    rw (number, size, before, a, start, b, stop, c) refl

abbrev rounds_left : ℕ → ℕ → ℕ → ℕ
rounds_left i n count = pos_part (min_ℤ (pos (i + n)) (pos count) -ℤ pos i)

rounds :
    (i n : ℕ) (rs : List Room)
    → page_from (rounds_left i n (length rs)) (pos i) rs ≡ some (take n (drop i rs))
rounds i n rs = elim (Bool-cases (leb (i + n) (length rs))) [
  | inl full ↦
      let count : rounds_left i n (length rs) ≡ n = ground arith in
      rw count (page_from-take n i rs (ground arith))
  | inr short ↦ elim (Bool-cases (leb i (length rs))) [
    | inl within ↦
        let count : rounds_left i n (length rs) ≡ length (drop i rs) =
          ground (arith, length-drop i rs) in
        rw count (
          page_from-take (length (drop i rs)) i rs (ground (arith, length-drop i rs))
          ∙ ap some (take-long n (drop i rs) (ground (arith, length-drop i rs))))
    | inr beyond ↦
        let count : rounds_left i n (length rs) ≡ 0 = ground arith in
        rw count
          (rw (drop-long i rs (ground arith)) (unfold page_from in ap some (sym (take-nil n))))
  ]
]

-- Page k + 1 of pages of n rooms, where k and the last index of the page are within int, is the
-- part of the matching rooms that starts at index k * n and has at most n rooms.
pub page-part :
    (f : RoomFilters) (rs : List Room) (k n : ℕ)
    → f.page_number ≡ pos (suc k)
    → f.page_size ≡ pos n
    → k < 2 ^ 31
    → k * n + n < 2 ^ 31
    → page f rs ≡ some (take n (drop (k * n) rs))
unfolding page
page-part f rs k n number size small fits =
    rw (bounds_of_page f (length rs) k n number size small fits) (rounds (k * n) n rs)

-- Page 0 of pages of a positive size within int makes the loop read at a negative index, whatever
-- the matching rooms are.
pub page-zero :
    (f : RoomFilters) (rs : List Room) (n : ℕ)
    → f.page_number ≡ pos 0
    → f.page_size ≡ pos (suc n)
    → suc n < 2 ^ 31
    → page f rs ≡ none
unfolding page page_bounds as_int page_from index
page-zero f rs n number size fits =
    let start : negsuc 0 *ℤ pos (suc n) ≡ negsuc n = ground arith in
    let stop : negsuc n +ℤ pos (suc n) ≡ pos 0 = ground arith in
    let a : as_int (negsuc n) ≡ some (negsuc n) = ground arith in
    let count : pos_part (min_ℤ (pos 0) (pos (length rs)) -ℤ negsuc n) ≡ suc n = ground arith in
    rw (number, size, start, a, stop, count) refl
