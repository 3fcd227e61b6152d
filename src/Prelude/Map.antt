-- ===== src/Prelude/Map.antt =====
-- `std::map` and `std::set` with string keys: lists in increasing order of the keys.
pub mod Sorted
use personalblockchain.Prelude.Texts.{Text, text_eq, text_eq_iff, text_eq_refl, text_lt}
use personalblockchain.Prelude.Tests.{if◌then◌else◌}
use mathlib.Core.Path.{◌≡◌, refl}
use mathlib.Core.Bool.{Bool, false, ◌||◌}
use mathlib.Core.List.{List, [], ◌∷◌}
use mathlib.Core.Option.{Option, none, some}
use native.Mathlib.Omega.{arith}

abbrev pub Map {ℓ} : Type ℓ → Type ℓ
Map V = List (Text × V)

module _ {ℓ} {V : Type ℓ} where
  unfoldable pub lookup : Text → Map V → Option V
  lookup k [] = none
  lookup k ((j, v) ∷ m) = if text_eq j k then some v else lookup k m

  -- `m[k] = v`
  unfoldable pub insert : Text → V → Map V → Map V
  insert k v [] = (k, v) ∷ []
  insert k v ((j, w) ∷ m) =
      if text_eq j k
      then (k, v) ∷ m
      else if text_lt k j
      then (k, v) ∷ (j, w) ∷ m
      else (j, w) ∷ insert k v m

  -- `m.erase(k)`
  unfoldable pub erase : Text → Map V → Map V
  erase k [] = []
  erase k ((j, w) ∷ m) = if text_eq j k then m else (j, w) ∷ erase k m

  -- `m[k]` where the operator makes a default entry.
  abbrev pub get_or : Text → V → Map V → V
  get_or k d m = elim (lookup k m) [ none ↦ d | some v ↦ v ]

  pub lookup-insert :
      (k j : Text) (v : V) (m : Map V)
      → lookup j (insert k v m) ≡ (if text_eq k j then some v else lookup j m)
  unfolding lookup insert
  lookup-insert k j v [] = refl
  lookup-insert k j v ((i, w) ∷ m) =
      ground (arith, text_eq_iff k j, text_eq_iff i k, text_eq_iff i j, lookup-insert k j v m)

  pub lookup-insert_self : (k : Text) (v : V) (m : Map V) → lookup k (insert k v m) ≡ some v
  lookup-insert_self k v m = simp (lookup-insert, text_eq_refl)

  pub lookup-erase_ne :
      (k j : Text) (m : Map V) → text_eq k j ≡ false → lookup j (erase k m) ≡ lookup j m
  unfolding lookup erase
  lookup-erase_ne k j [] h = refl
  lookup-erase_ne k j ((i, w) ∷ m) h =
      ground (arith, text_eq_iff i k, text_eq_iff i j, text_eq_iff k j, lookup-erase_ne k j m)

-- `std::set<std::string>`
abbrev pub Set : Type 0
Set = List Text

unfoldable pub contains : Text → Set → Bool
contains k [] = false
contains k (j ∷ s) = text_eq j k || contains k s

unfoldable pub add : Text → Set → Set
add k [] = k ∷ []
add k (j ∷ s) = if text_eq j k then j ∷ s else if text_lt k j then k ∷ j ∷ s else j ∷ add k s

pub contains-add : (k j : Text) (s : Set) → contains j (add k s) ≡ (text_eq k j || contains j s)
unfolding contains add
contains-add k j [] = refl
contains-add k j (i ∷ s) =
    ground (arith, text_eq_iff k j, text_eq_iff i k, text_eq_iff i j, contains-add k j s)
