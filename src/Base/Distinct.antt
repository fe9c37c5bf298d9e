-- ===== src/Base/Distinct.antt =====
-- Association lists in which no key stands twice.
use ynetserver_enet.Base.Tests.{Bool-cases, Option-cases}
use ynetserver_enet.Base.Keys.{Key}
use ynetserver_enet.Base.Lists.{get_elem?, keep, keep-yes, keep-no}
use ynetserver_enet.Base.Dict.{
  Dict, lookup, insert, assign, erase, lookup-insert, lookup-assign, lookup-assign_missing,
  lookup-erase,
}
use Prim.Native.Nat.{ℕ, zero, suc}
use mathlib.Core.Path.{◌≡◌, refl}
use mathlib.Core.Logic.{inl, inr, ◌⊎◌}
use mathlib.Core.Bool.{Bool, true, false}
use mathlib.Core.List.{List, [], ◌∷◌, map}
use mathlib.Core.Option.{none, some}
use native.Mathlib.Omega.{arith}

differs : {K : Type 0} ⦃key : Key K⦄ (k j : K) → key.beq j k ≡ false → key.beq k j ≡ false
differs {K} ⦃key⦄ k j e = elim (Bool-cases (key.beq k j)) [
  | inl same ↦ absurd (ground (arith, key.beq_iff k j, key.beq_iff j k))
  | inr other ↦ other
]

split_elem :
    {K : Type 0} (j k : K) (ks : List K) (i : ℕ)
    → get_elem? (j ∷ ks) i ≡ some k
    → (j ≡ k) ⊎ ((n : ℕ) × (get_elem? ks n ≡ some k))
split_elem j k ks zero e = inl (ground arith)
split_elem j k ks (suc n) e = inr (n, e)

module _ {K V : Type 0} ⦃key : Key K⦄ where
  abbrev pub Distinct : Dict K V → Type 0
  Distinct [] = Unit
  Distinct ((k, v) ∷ m) = (lookup k m ≡ none) × Distinct m

  -- A key that is missing stays so when another one gets a value.
  lookup-assign_still_missing :
      (k j : K) (v : V) (m : Dict K V) → lookup j m ≡ none → lookup j (assign k v m) ≡ none
  lookup-assign_still_missing k j v m h = elim (Option-cases (lookup k m)) [
    | inl n ↦ ground (arith, lookup-assign_missing k j v m n)
    | inr (u, e) ↦ elim (Bool-cases (key.beq k j)) [
      | inl same ↦ absurd (ground (arith, key.beq_iff k j))
      | inr other ↦ ground (arith, lookup-assign k j v u m e)
    ]
  ]

  pub assign-Distinct : (k : K) (v : V) (m : Dict K V) → Distinct m → Distinct (assign k v m)
  unfolding assign
  assign-Distinct k v [] d = tt
  assign-Distinct k v ((j, w) ∷ m) d = elim (Bool-cases (key.beq j k)) [
    | inl e ↦ rw e d
    | inr e ↦ rw e (lookup-assign_still_missing k j v m d.0, assign-Distinct k v m d.1)
  ]

  pub erase-Distinct : (k : K) (m : Dict K V) → Distinct m → Distinct (erase k m)
  unfolding erase
  erase-Distinct k [] d = tt
  erase-Distinct k ((j, w) ∷ m) d = elim (Bool-cases (key.beq j k)) [
    | inl e ↦ rw e (erase-Distinct k m d.1)
    | inr e ↦ rw e (ground (arith, lookup-erase k j m, d.0), erase-Distinct k m d.1)
  ]

  pub insert-Distinct :
      (k : K) (v : V) (m : Dict K V) → lookup k m ≡ none → Distinct m → Distinct (insert k v m)
  unfolding insert lookup
  insert-Distinct k v [] h d = (refl, tt)
  insert-Distinct k v ((j, w) ∷ m) h d = elim (Bool-cases (key.beq j k)) [
    | inl e ↦ absurd (ground arith)
    | inr e ↦
        let rest : lookup k m ≡ none = rw e at h in
        let other : key.beq k j ≡ false = differs k j e in
        elim (Bool-cases (key.before k j)) [
          | inl b ↦ rw (e, b) (h, d)
          | inr b ↦
              rw (e, b)
                (ground (arith, lookup-insert k j v m, d.0, other), insert-Distinct k v m rest d.1)
        ]
  ]

  -- Behind another key.
  skip :
      (j : K) (w : V) (m : Dict K V) (k : K) (v : V)
      → lookup j m ≡ none
      → lookup k m ≡ some v
      → lookup k ((j, w) ∷ m) ≡ some v
  unfolding lookup
  skip j w m k v none_j some_k = elim (Bool-cases (key.beq j k)) [
    | inl same ↦ absurd (ground (arith, key.beq_iff j k))
    | inr other ↦ rw other some_k
  ]

  head_of : (j : K) (w : V) (m : Dict K V) (k : K) → j ≡ k → lookup k ((j, w) ∷ m) ≡ some w
  unfolding lookup
  head_of j w m k e = let same : key.beq j k ≡ true = (key.beq_iff j k).1 e in rw same refl

  -- The entry that a position of a filtered list of keys stands for.
  pub keep-lookup :
      (test : V → Bool) (m : Dict K V) (i : ℕ) (k : K)
      → Distinct m
      → get_elem? (map (λ e. e.0) (keep (λ e. test e.1) m)) i ≡ some k
      → (v : V) × (lookup k m ≡ some v) × (test v ≡ true)
  unfolding lookup
  keep-lookup test [] i k d e = absurd (ground arith)
  keep-lookup test ((j, w) ∷ m) i k d e = elim (Bool-cases (test w)) [
    | inr fails ↦
        let same = keep-no (λ e. test e.1) (j, w) m fails in
        let (v, f, t) = keep-lookup test m i k d.1 (rw same at e) in (v, skip j w m k v d.0 f, t)
    | inl passes ↦
        let same = keep-yes (λ e. test e.1) (j, w) m passes in
        elim (split_elem j k (map (λ e. e.0) (keep (λ e. test e.1) m)) i (rw same at e)) [
          | inl at_front ↦ (w, head_of j w m k at_front, passes)
          | inr (n, behind) ↦
              let (v, f, t) = keep-lookup test m n k d.1 behind in (v, skip j w m k v d.0 f, t)
        ]
  ]
