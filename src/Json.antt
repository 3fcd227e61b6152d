-- ===== src/Json.antt =====
-- What the source asks of the JSON library (include/utils/json.hpp, a copy of a third-party header).
-- An exception is nothing.
use personalblockchain.Prelude.{
  ◌>>=◌, ◌++◌, last?, Option-cases, inl, inr, ◌<◌, length, ◌≡◌, refl, false, [], ◌∷◌, map, Bool,
  arith, Option, some, List, Text, text_eq, ℕ, if◌then◌else◌,
}
use personalblockchain.Prelude.Int.{ℤ}

pub record Json (J : Type 0) : Type 0 where
  -- `json::object()`
  pub object : J
  -- The values that a text, a number, nothing, a truth value and a signed number convert to.
  pub text : Text → J
  pub number : ℕ → J
  pub null : J
  pub boolean : Bool → J
  pub integer : ℤ → J
  pub array : List J → J
  -- `j[key] = value`, which the source does on objects only.
  pub set : Text → J → J → J
  -- `j.value(key, default)`, by the type of the default. It throws where `j` is no object, or where
  -- the member has another type.
  pub value_text : J → Text → Text → Option Text
  pub value_number : J → Text → ℕ → Option ℕ
  pub value_integer : J → Text → ℤ → Option ℤ
  pub value_json : J → Text → J → Option J
  pub contains : J → Text → Bool
  pub is_object : J → Bool
  -- The elements where `is_array()`.
  pub elements : J → Option (List J)
  -- The values that a range `for` goes through: the elements of an array, the members of an object,
  -- any other value but null itself.
  pub items : J → List J
  -- The text where `is_string()`.
  pub as_text : J → Option Text
  -- `dump`, with the indentation if there is one.
  pub dump : Option ℕ → J → Text
  pub parse : Text → Option J
  -- `in >> j`: the value at the front of a stream.
  pub read : Text → Option J

-- What the documentation of the library promises of values whose texts are UTF-8. Others cannot be
-- parsed, so no value that came from the network or the disk has them.
pub record IsLawful {J : Type 0} (json : Json J) : Type 0 where
  pub value_text-set_text :
      (k s l d : Text) (j : J)
      → json.value_text (json.set k (json.text s) j) l d
        ≡ (if text_eq k l then some s else json.value_text j l d)
  pub value_number-set_number :
      (k : Text) (n : ℕ) (l : Text) (d : ℕ) (j : J)
      → json.value_number (json.set k (json.number n) j) l d
        ≡ (if text_eq k l then some n else json.value_number j l d)
  pub value_integer-set_integer :
      (k : Text) (z : ℤ) (l : Text) (d : ℤ) (j : J)
      → json.value_integer (json.set k (json.integer z) j) l d
        ≡ (if text_eq k l then some z else json.value_integer j l d)
  pub value_json-set :
      (k : Text) (v : J) (l : Text) (d j : J)
      → json.value_json (json.set k v j) l d
        ≡ (if text_eq k l then some v else json.value_json j l d)
  -- A member leaves the others as they are.
  pub value_text-set_ne :
      (k : Text) (v : J) (l d : Text) (j : J)
      → text_eq k l ≡ false
      → json.value_text (json.set k v j) l d ≡ json.value_text j l d
  pub value_number-set_ne :
      (k : Text) (v : J) (l : Text) (d : ℕ) (j : J)
      → text_eq k l ≡ false
      → json.value_number (json.set k v j) l d ≡ json.value_number j l d
  pub value_integer-set_ne :
      (k : Text) (v : J) (l : Text) (d : ℤ) (j : J)
      → text_eq k l ≡ false
      → json.value_integer (json.set k v j) l d ≡ json.value_integer j l d
  pub elements-array : (js : List J) → json.elements (json.array js) ≡ some js
  pub items-array : (js : List J) → json.items (json.array js) ≡ js
  pub parse-dump : (indent : Option ℕ) (j : J) → json.parse (json.dump indent j) ≡ some j
  pub read-dump : (indent : Option ℕ) (j : J) → json.read (json.dump indent j ++ 10 ∷ []) ≡ some j
  -- The brackets, and what stands between them.
  pub dump-array :
      (indent : Option ℕ) (j : J) (js : List J)
      → 2 < length (json.dump indent (json.array (j ∷ js)))

-- The loop that converts the elements of an array; the first failure ends it.
unfoldable pub read_all {ℓ κ} :
    {A : Type ℓ} {B : Type κ} → (A → Option B) → List A → Option (List B)
read_all f [] = some []
read_all f (x ∷ xs) = do y ← f x; ys ← read_all f xs; some (y ∷ ys)

pub read_all-append {ℓ κ} :
    {A : Type ℓ} {B : Type κ} (f : A → Option B) (xs : List A) (x : A) (ys : List B) (y : B)
    → read_all f xs ≡ some ys
    → f x ≡ some y
    → read_all f (xs ++ x ∷ []) ≡ some (ys ++ y ∷ [])
unfolding read_all
read_all-append f [] x ys y e h = ground arith
read_all-append f (z ∷ xs) x ys y e h = elim (Option-cases (f z)) [
  | inl out ↦ absurd (ground arith)
  | inr (w, first) ↦ elim (Option-cases (read_all f xs)) [
    | inl out ↦ absurd (ground arith)
    | inr (ws, rest) ↦
        let made : ys ≡ w ∷ ws = ground arith in
        rw (made, first, read_all-append f xs x ws y rest h) refl
  ]
]

-- The last element of what was read comes from the last element.
pub read_all-last? {ℓ κ} :
    {A : Type ℓ} {B : Type κ} (f : A → Option B) (xs : List A) (ys : List B) (y : B)
    → read_all f xs ≡ some ys
    → last? ys ≡ some y
    → (x : A) × (last? xs ≡ some x) × (f x ≡ some y)
unfolding read_all
read_all-last? f [] ys y e l = absurd (ground arith)
read_all-last? f (z ∷ []) ys y e l = elim (Option-cases (f z)) [
  | inl out ↦ absurd (ground arith)
  | inr (w, first) ↦ (z, refl, ground arith)
]
read_all-last? f (z ∷ x ∷ xs) ys y e l = elim (Option-cases (f z)) [
  | inl out ↦ absurd (ground arith)
  | inr (w, first) ↦ elim (Option-cases (read_all f (x ∷ xs))) [
    | inl out ↦ absurd (cc)
    | inr (ws, rest) ↦
        let made : ys ≡ w ∷ ws = ground arith in read_all-last? f (x ∷ xs) ws y rest (ground arith)
  ]
]

pub read_all-map {ℓ κ} :
    {A : Type ℓ} {B : Type κ} (f : A → Option B) (g : B → A) (h : B → B) (ys : List B)
    → ((y : B) → f (g y) ≡ some (h y))
    → read_all f (map g ys) ≡ some (map h ys)
unfolding read_all
read_all-map f g h [] e = refl
read_all-map f g h (y ∷ ys) e = rw (e y, read_all-map f g h ys e) refl
