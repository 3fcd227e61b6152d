-- ===== src/Prelude/Map/Sorted.antt =====
-- Maps as `std::map` keeps them, in increasing order of the keys, and the sum of their values.
use Prim.Native.Nat.{ℕ, ◌+◌}
use mathlib.Core.Path.{◌≡◌, refl, subst}
use mathlib.Core.Logic.{inl, inr}
use personalblockchain.Prelude.Tests.{Bool-cases}
use mathlib.Core.Bool.{true}
use mathlib.Core.List.{[], ◌∷◌}
use mathlib.Core.Option.{none}
use native.Mathlib.Omega.{arith}
use personalblockchain.Prelude.Texts.{
  Text, text_eq, text_eq_iff, text_lt, text_lt_irrefl, text_lt_trans, text_lt_total,
}
use personalblockchain.Prelude.Map.{Map, lookup, insert, erase, get_or}

-- The key stands before the first key of the map.
abbrev pub Above {ℓ} : {V : Type ℓ} → Text → Map V → Type 0
Above k [] = Unit {0}
Above k ((j, v) ∷ m) = text_lt k j ≡ true

abbrev pub IsSorted {ℓ} : {V : Type ℓ} → Map V → Type 0
IsSorted [] = Unit {0}
IsSorted ((k, v) ∷ m) = Above k m × IsSorted m

module _ {ℓ} {V : Type ℓ} where
  insert-Above :
      (i k : Text) (v : V) (m : Map V) → text_lt i k ≡ true → Above i m → Above i (insert k v m)
  unfolding insert
  insert-Above i k v [] h a = h
  insert-Above i k v ((j, w) ∷ m) h a = ground arith

  pub insert-IsSorted : (k : Text) (v : V) (m : Map V) → IsSorted m → IsSorted (insert k v m)
  unfolding insert
  insert-IsSorted k v [] s = (tt, tt)
  insert-IsSorted k v ((j, w) ∷ m) s = ground (
    arith,
    text_eq_iff j k,
    text_lt_total k j,
    text_eq_iff k j,
    insert-Above j k v m,
    insert-IsSorted k v m s.1,
  )

  pub Above-trans : (k j : Text) (m : Map V) → text_lt k j ≡ true → Above j m → Above k m
  Above-trans k j [] h a = tt
  Above-trans k j ((i, w) ∷ m) h a = text_lt_trans k j i h a

  pub lookup-Above : (k : Text) (m : Map V) → IsSorted m → Above k m → lookup k m ≡ none
  unfolding lookup
  lookup-Above k [] s a = refl
  lookup-Above k ((j, w) ∷ []) s a = ground (arith, text_eq_iff j k, text_lt_irrefl k)
  lookup-Above k ((j, w) ∷ (i, u) ∷ m) s a = ground (
    arith,
    text_eq_iff j k,
    text_lt_irrefl k,
    text_lt_trans k j i a s.0,
    lookup-Above k ((i, u) ∷ m) s.1,
  )

abbrev pub total : Map ℕ → ℕ
total [] = 0
total ((k, v) ∷ m) = v + total m

-- An entry that is written changes the sum by what it held before and holds now.
pub total-insert :
    (k : Text) (v : ℕ) (m : Map ℕ) → IsSorted m → total (insert k v m) + get_or k 0 m ≡ total m + v
unfolding insert lookup
total-insert k v [] s = omega arith
total-insert k v ((j, w) ∷ m) s =
    ground (arith, Above-trans k j m, lookup-Above k m s.1, total-insert k v m s.1)

module _ {ℓ} {V : Type ℓ} where
  erase-Above : (i k : Text) (m : Map V) → IsSorted m → Above i m → Above i (erase k m)
  unfolding erase
  erase-Above i k [] s a = tt
  erase-Above i k ((j, w) ∷ m) s a = elim (Bool-cases (text_eq j k)) [
    | inl here ↦ rw here (Above-trans i j m a s.0)
    | inr there ↦ rw there a
  ]

  pub erase-IsSorted : (k : Text) (m : Map V) → IsSorted m → IsSorted (erase k m)
  unfolding erase
  erase-IsSorted k [] s = tt
  erase-IsSorted k ((j, w) ∷ m) s = elim (Bool-cases (text_eq j k)) [
    | inl here ↦ rw here s.1
    | inr there ↦ rw there (erase-Above j k m s.1 s.0, erase-IsSorted k m s.1)
  ]

  pub lookup-erase_self : (k : Text) (m : Map V) → IsSorted m → lookup k (erase k m) ≡ none
  unfolding lookup erase
  lookup-erase_self k [] s = refl
  lookup-erase_self k ((j, w) ∷ m) s = elim (Bool-cases (text_eq j k)) [
    | inl here ↦
        let same : j ≡ k = (text_eq_iff j k).0 here in
        let above : Above k m = subst (λ t. Above t m) same s.0 in
        rw here (lookup-Above k m s.1 above)
    | inr there ↦ rw (there, there) (lookup-erase_self k m s.1)
  ]
