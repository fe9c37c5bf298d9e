-- ===== src/Base/Dict.antt =====
-- Containers as association lists: `std::map` (kept in key order), `std::unordered_map` (a new
-- entry goes to the front) and `std::set<uint16_t>`.
use ynetserver_enet.Base.Tests.{if◌then◌else◌, ◌==◌, Option-cases, Bool-cases}
use ynetserver_enet.Base.Keys.{Key}
use Prim.Native.Nat.{ℕ}
use mathlib.Core.Path.{◌≡◌, refl}
use mathlib.Core.Logic.{inl, inr}
use mathlib.Core.Bool.{Bool, true, false, ◌||◌}
use mathlib.Core.List.{List, [], ◌∷◌}
use mathlib.Core.Option.{Option, none, some}
use native.Mathlib.Omega.{arith}

abbrev pub Dict {ℓ κ} : Type ℓ → Type κ → Type (ℓ ⊔ κ)
Dict K V = List (K × V)

abbrev pub is_some {ℓ} : {A : Type ℓ} → Option A → Bool
is_some none = false
is_some (some v) = true

module _ {ℓ κ} {K : Type ℓ} {V : Type κ} ⦃key : Key K⦄ where
  -- `find`
  unfoldable pub lookup : K → Dict K V → Option V
  lookup k [] = none
  lookup k ((j, v) ∷ m) = if key.beq j k then some v else lookup k m

  -- `m[k] = v` on a `std::map`
  unfoldable pub insert : K → V → Dict K V → Dict K V
  insert k v [] = (k, v) ∷ []
  insert k v ((j, w) ∷ m) =
      let rest = insert k v m in
      if key.beq j k
      then (k, v) ∷ m
      else if key.before k j
      then (k, v) ∷ (j, w) ∷ m
      else (j, w) ∷ rest

  -- the entry of a key that is there gets a new value
  unfoldable pub assign : K → V → Dict K V → Dict K V
  assign k v [] = []
  assign k v ((j, w) ∷ m) =
      let rest = assign k v m in if key.beq j k then (j, v) ∷ m else (j, w) ∷ rest

  -- `m[k] = v` on a `std::unordered_map`
  unfoldable pub put : K → V → Dict K V → Dict K V
  put k v m = elim (lookup k m) [ none ↦ (k, v) ∷ m | some w ↦ assign k v m ]

  -- `erase(k)`
  unfoldable pub erase : K → Dict K V → Dict K V
  erase k [] = []
  erase k ((j, v) ∷ m) = let rest = erase k m in if key.beq j k then rest else (j, v) ∷ rest

  abbrev pub has : K → Dict K V → Bool
  has k m = is_some (lookup k m)

  pub lookup-insert :
      (k j : K) (v : V) (m : Dict K V)
      → lookup j (insert k v m) ≡ (if key.beq k j then some v else lookup j m)
  unfolding lookup insert
  lookup-insert k j v [] = refl
  lookup-insert k j v ((i, w) ∷ m) =
      ground (arith, key.beq_iff k j, key.beq_iff i k, key.beq_iff i j, lookup-insert k j v m)

  pub lookup-erase :
      (k j : K) (m : Dict K V) → lookup j (erase k m) ≡ (if key.beq k j then none else lookup j m)
  unfolding lookup erase
  lookup-erase k j [] = ground arith
  lookup-erase k j ((i, w) ∷ m) =
      ground (arith, key.beq_iff k j, key.beq_iff i k, key.beq_iff i j, lookup-erase k j m)

  pub lookup-assign :
      (k j : K) (v u : V) (m : Dict K V)
      → lookup k m ≡ some u
      → lookup j (assign k v m) ≡ (if key.beq k j then some v else lookup j m)
  unfolding lookup assign
  lookup-assign k j v u [] h = ground arith
  lookup-assign k j v u ((i, w) ∷ m) h =
      ground (arith, key.beq_iff k j, key.beq_iff i k, key.beq_iff i j, lookup-assign k j v u m)

  pub lookup-assign_missing :
      (k j : K) (v : V) (m : Dict K V) → lookup k m ≡ none → lookup j (assign k v m) ≡ lookup j m
  unfolding lookup assign
  lookup-assign_missing k j v [] h = refl
  lookup-assign_missing k j v ((i, w) ∷ m) h = elim (Bool-cases (key.beq i k)) [
    | inl e ↦ absurd (ground arith)
    | inr e ↦ ground (arith, lookup-assign_missing k j v m (ground arith))
  ]

  pub lookup-put :
      (k j : K) (v : V) (m : Dict K V)
      → lookup j (put k v m) ≡ (if key.beq k j then some v else lookup j m)
  unfolding put
  lookup-put k j v m = elim (Option-cases (lookup k m)) [
    | inl e ↦ rw (e, put) (unfold lookup in refl)
    | inr (w, e) ↦ rw (e, put) (lookup-assign k j v w m e)
  ]

-- `std::set<uint16_t>`: `find`, `insert` and `erase`.
unfoldable pub contains : ℕ → List ℕ → Bool
contains a [] = false
contains a (x ∷ xs) = (x == a) || contains a xs

unfoldable pub include : ℕ → List ℕ → List ℕ
unfolding contains
include a xs = if contains a xs then xs else a ∷ xs

unfoldable pub exclude : ℕ → List ℕ → List ℕ
exclude a [] = []
exclude a (x ∷ xs) = let rest = exclude a xs in if x == a then rest else x ∷ rest

pub contains-include :
    (a b : ℕ) (xs : List ℕ) → contains b (include a xs) ≡ ((a == b) || contains b xs)
unfolding contains include
contains-include a b xs = ground arith

pub contains-exclude :
    (a b : ℕ) (xs : List ℕ) → contains b (exclude a xs) ≡ (if a == b then false else contains b xs)
unfolding contains exclude
contains-exclude a b [] = ground arith
contains-exclude a b (x ∷ xs) = ground (arith, contains-exclude a b xs)
