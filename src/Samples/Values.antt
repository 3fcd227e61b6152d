-- ===== src/Samples/Values.antt =====
-- A JSON library (for include/utils/json.hpp) that computes: values as trees, written in prefix form.
use personalblockchain.Prelude.{
  ℕ, suc, zero, subst, ◌≤◌, ◌<◌, ◌≡◌, refl, Bool, true, false, ◌||◌, Option, none, some, List, [],
  ◌∷◌, ◌++◌, Text, text_eq, length, take, drop, arith, if◌then◌else◌, ◌>>=◌, length-append,
  take-append, drop-append, append_assoc, append-nil,
}
use personalblockchain.Prelude.Int.{ℤ, pos, negsuc}
use personalblockchain.Json.{Json, IsLawful}

pub data Value : Type 0 where
  object : Value
  number : ℕ → Value
  text : Text → Value
  empty null yes no : Value
  negative : ℕ → Value
  pair : Value → Value → Value
  member : Text → Value → Value → Value

abbrev find_text : Value → Text → Text → Option Text
find_text (member k v j) l d =
    let rest = find_text j l d in
    if text_eq k l then elim v [ text s ↦ some s | _ ↦ none ] else rest
find_text _ l d = some d

abbrev find_number : Value → Text → ℕ → Option ℕ
find_number (member k v j) l d =
    let rest = find_number j l d in
    if text_eq k l then elim v [ number n ↦ some n | _ ↦ none ] else rest
find_number _ l d = some d

abbrev find_integer : Value → Text → ℤ → Option ℤ
find_integer (member k v j) l d =
    let rest = find_integer j l d in
    if text_eq k l
    then elim v [ number n ↦ some (pos n) | negative n ↦ some (negsuc n) | _ ↦ none ]
    else rest
find_integer _ l d = some d

abbrev find_value : Value → Text → Value → Option Value
find_value (member k v j) l d = let rest = find_value j l d in if text_eq k l then some v else rest
find_value _ l d = some d

abbrev has : Value → Text → Bool
has (member k v j) l = text_eq k l || has j l
has _ l = false

abbrev to_list : Value → Option (List Value)
to_list empty = some []
to_list (pair v j) = do rest ← to_list j; some (v ∷ rest)
to_list _ = none

abbrev through : Value → List Value
through object = []
through empty = []
through null = []
through (pair v j) = v ∷ through j
through (member k v j) = v ∷ through j
through v = v ∷ []

abbrev of_list : List Value → Value
of_list [] = empty
of_list (v ∷ vs) = pair v (of_list vs)

abbrev write : Value → Text
write object = 0 ∷ []
write (number n) = 1 ∷ n ∷ []
write (text s) = 2 ∷ length s ∷ s
write empty = 3 ∷ []
write null = 5 ∷ []
write yes = 6 ∷ []
write no = 7 ∷ []
write (negative n) = 8 ∷ n ∷ []
write (pair v j) = 4 ∷ write v ++ write j
write (member k v j) = 9 ∷ length k ∷ k ++ (write v ++ write j)

abbrev read : ℕ → Text → Option (Value × Text)
read zero s = none
read (suc fuel) [] = none
read (suc fuel) (zero ∷ s) = some (object, s)
read (suc fuel) (suc zero ∷ []) = none
read (suc fuel) (suc zero ∷ n ∷ s) = some (number n, s)
read (suc fuel) (suc (suc zero) ∷ []) = none
read (suc fuel) (suc (suc zero) ∷ n ∷ s) = some (text (take n s), drop n s)
read (suc fuel) (suc (suc (suc zero)) ∷ s) = some (empty, s)
read (suc fuel) (suc (suc (suc (suc zero))) ∷ s) = do
  (v, t) ← read fuel s
  (j, u) ← read fuel t
  some (pair v j, u)
read (suc fuel) (suc (suc (suc (suc (suc zero)))) ∷ s) = some (null, s)
read (suc fuel) (suc (suc (suc (suc (suc (suc zero))))) ∷ s) = some (yes, s)
read (suc fuel) (suc (suc (suc (suc (suc (suc (suc zero)))))) ∷ s) = some (no, s)
read (suc fuel) (suc (suc (suc (suc (suc (suc (suc (suc zero))))))) ∷ []) = none
read (suc fuel) (suc (suc (suc (suc (suc (suc (suc (suc zero))))))) ∷ n ∷ s) = some (negative n, s)
read (suc fuel) (suc (suc (suc (suc (suc (suc (suc (suc (suc tag)))))))) ∷ []) = none
read (suc fuel) (suc (suc (suc (suc (suc (suc (suc (suc (suc tag)))))))) ∷ n ∷ s) = do
  (v, t) ← read fuel (drop n s)
  (j, u) ← read fuel t
  some (member (take n s) v j, u)

abbrev read_whole : Text → Option Value
read_whole s = elim (read (length s) s) [ none ↦ none | some (v, rest) ↦ some v ]

abbrev pub values : Json Value
values = record {
  object = object;
  text = text;
  number = number;
  null = null;
  boolean = λ b. if b then yes else no;
  integer = λ z. elim z [ pos n ↦ number n | negsuc n ↦ negative n ];
  array = of_list;
  set = member;
  value_text = find_text;
  value_number = find_number;
  value_integer = find_integer;
  value_json = find_value;
  contains = has;
  is_object = λ v. elim v [ object ↦ true | member k w j ↦ true | _ ↦ false ];
  elements = to_list;
  items = through;
  as_text = λ v. elim v [ text s ↦ some s | _ ↦ none ];
  dump = λ indent j. write j;
  parse = read_whole;
  read = read_whole;
}

read-write :
    (fuel : ℕ) (v : Value) (s : Text)
    → length (write v) ≤ fuel
    → read fuel (write v ++ s) ≡ some (v, s)
read-write zero object s h = absurd (omega arith)
read-write zero (number n) s h = absurd (omega arith)
read-write zero (text t) s h = absurd (omega arith)
read-write zero empty s h = absurd (omega arith)
read-write zero null s h = absurd (omega arith)
read-write zero yes s h = absurd (omega arith)
read-write zero no s h = absurd (omega arith)
read-write zero (negative n) s h = absurd (omega arith)
read-write zero (pair v j) s h = absurd (omega arith)
read-write zero (member k v j) s h = absurd (omega arith)
read-write (suc fuel) object s h = refl
read-write (suc fuel) (number n) s h = refl
read-write (suc fuel) (text t) s h = rw (take-append t s, drop-append t s) refl
read-write (suc fuel) empty s h = refl
read-write (suc fuel) null s h = refl
read-write (suc fuel) yes s h = refl
read-write (suc fuel) no s h = refl
read-write (suc fuel) (negative n) s h = refl
read-write (suc fuel) (pair v j) s h =
    let size = length-append (write v) (write j) in
    rw
      (
        append_assoc (write v) (write j) s,
        read-write fuel v (write j ++ s) (omega (arith, size)),
        read-write fuel j s (omega (arith, size)),
      )
      refl
read-write (suc fuel) (member k v j) s h =
    let size = length-append (write v) (write j) in
    let whole = length-append k (write v ++ write j) in
    rw
      (
        append_assoc k (write v ++ write j) s,
        take-append k ((write v ++ write j) ++ s),
        drop-append k ((write v ++ write j) ++ s),
        append_assoc (write v) (write j) s,
        read-write fuel v (write j ++ s) (omega (arith, size, whole)),
        read-write fuel j s (omega (arith, size, whole)),
      )
      refl

fuel_is_enough : (v : Value) (s : Text) → length (write v) ≤ length (write v ++ s)
fuel_is_enough v s = omega (arith, length-append (write v) s)

read_whole-write : (v : Value) (s : Text) → read_whole (write v ++ s) ≡ some v
read_whole-write v s =
    rw (read-write (length (write v ++ s)) v s (fuel_is_enough v s), read_whole) refl

to_list-of_list : (vs : List Value) → to_list (of_list vs) ≡ some vs
to_list-of_list [] = refl
to_list-of_list (v ∷ vs) = rw (to_list-of_list vs) refl

through-of_list : (vs : List Value) → through (of_list vs) ≡ vs
through-of_list [] = refl
through-of_list (v ∷ vs) = rw (through-of_list vs) refl

length-write : (v : Value) → 1 ≤ length (write v)
length-write object = omega arith
length-write (number n) = omega arith
length-write (text s) = omega arith
length-write empty = omega arith
length-write null = omega arith
length-write yes = omega arith
length-write no = omega arith
length-write (negative n) = omega arith
length-write (pair v j) = omega arith
length-write (member k v j) = omega arith

long : (v j : Value) → 2 < length (write (pair v j))
long v j = omega (arith, length-append (write v) (write j), length-write v, length-write j)

find_integer-integer :
    (k : Text) (z : ℤ) (l : Text) (d : ℤ) (j : Value)
    → find_integer (values.set k (values.integer z) j) l d
      ≡ (if text_eq k l then some z else find_integer j l d)
find_integer-integer k (pos n) l d j = refl
find_integer-integer k (negsuc n) l d j = refl

pub values-IsLawful : IsLawful values
values-IsLawful = record {
  value_text-set_text = λ k s l d j. refl;
  value_number-set_number = λ k n l d j. refl;
  value_integer-set_integer = find_integer-integer;
  value_json-set = λ k v l d j. refl;
  value_text-set_ne = λ k v l d j h. rw h refl;
  value_number-set_ne = λ k v l d j h. rw h refl;
  value_integer-set_ne = λ k v l d j h. rw h refl;
  elements-array = to_list-of_list;
  items-array = through-of_list;
  parse-dump =
      λ indent j. subst (λ t. read_whole t ≡ some j) (append-nil (write j)) (read_whole-write j []);
  read-dump = λ indent j. read_whole-write j (10 ∷ []);
  dump-array = λ indent j js. long j (of_list js);
}
