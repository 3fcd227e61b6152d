-- ===== src/Network/PeerManager/Endpoint.antt =====
-- `parseEndpoint` of src/network/peer_manager.cpp.
use personalblockchain.Prelude.{
  ℕ, suc, zero, ◌+◌, ◌-◌, ◌*◌, ◌/◌, ◌%◌, ◌^◌, ◌<◌, ◌≡◌, ◌≢◌, refl, subst, Bool, true, false, ◌&&◌,
  ◌||◌, Option, none, some, inl, inr, [], ◌∷◌, ◌++◌, Text, is_empty, ltb, leb, ◌==◌, if◌then◌else◌,
  decimal, decimal_rounds, arith, all, ◌∙◌, Bool-cases,
}

-- `rfind` and the two calls of `substr`: what stands before and behind the last ':'.
unfoldable pub split_last : Text → Option (Text × Text)
split_last [] = none
split_last (c ∷ s) =
    let later = split_last s in
    elim later [
      | some (before, behind) ↦ some (c ∷ before, behind)
      | none ↦ if c == b':' then some ([], s) else none
    ]

abbrev pub is_digit : ℕ → Bool
is_digit c = leb b'0' c && leb c b'9'

-- The number that the digits at the front make; nothing where there is none.
unfoldable pub read_digits : ℕ → Text → ℕ
read_digits n [] = n
read_digits n (c ∷ s) =
    let rest = read_digits (n * 10 + (c - b'0')) s in if is_digit c then rest else n

abbrev pub skip_spaces : Text → Text
skip_spaces [] = []
skip_spaces (c ∷ s) =
    let rest = skip_spaces s in if c == 32 || (leb 9 c && leb c 13) then rest else c ∷ s

abbrev pub magnitude : Text → Option ℕ
magnitude [] = none
magnitude (c ∷ s) = if is_digit c then some (read_digits 0 (c ∷ s)) else none

-- The sixteen bits that the cast keeps of what `std::stoi` returns; nothing where it throws.
unfoldable pub port_of : Text → Option ℕ
port_of s = elim (skip_spaces s) [
  | [] ↦ none
  | c ∷ t ↦
      if c == b'-'
      then elim (magnitude t) [
        | none ↦ none
        | some n ↦ if leb n (2 ^ 31) then some ((2 ^ 16 - n % 2 ^ 16) % 2 ^ 16) else none
      ]
      else elim (magnitude (if c == b'+' then t else c ∷ t)) [
        | none ↦ none
        | some n ↦ if ltb n (2 ^ 31) then some (n % 2 ^ 16) else none
      ]
]

-- The host and the port; nothing for `false`.
unfoldable pub parse_endpoint : Text → Option (Text × ℕ)
parse_endpoint endpoint = elim (split_last endpoint) [
  | none ↦ none
  | some (host, behind) ↦ if is_empty host then none else elim (port_of behind) [
    | none ↦ none
    | some port ↦ if ltb 0 port then some (host, port) else none
  ]
]

-- `makeEndpoint` of src/network/node.cpp.
unfoldable pub make_endpoint : Text → ℕ → Text
make_endpoint host port = host ++ b':' ∷ decimal port

pub split_last-digits : (s : Text) → all is_digit s ≡ true → split_last s ≡ none
unfolding split_last
split_last-digits [] h = refl
split_last-digits (c ∷ s) h =
    let rest = split_last-digits s (ground arith) in rw rest (ground arith)

pub split_last-append :
    (host behind : Text)
    → split_last behind ≡ none
    → split_last (host ++ b':' ∷ behind) ≡ some (host, behind)
unfolding split_last
split_last-append [] behind h = rw h refl
split_last-append (c ∷ host) behind h = rw (split_last-append host behind h) refl

decimal_rounds-digits :
    (f n : ℕ) (out : Text) → all is_digit out ≡ true → all is_digit (decimal_rounds f n out) ≡ true
unfolding decimal_rounds
decimal_rounds-digits zero n out h = h
decimal_rounds-digits (suc f) n out h =
    let rest = decimal_rounds-digits f (n / 10) ((b'0' + n % 10) ∷ out) (ground arith) in
    ground arith

read_digits-last :
    (n : ℕ) (out : Text) → read_digits (n / 10) ((b'0' + n % 10) ∷ out) ≡ read_digits n out
unfolding read_digits
read_digits-last n out =
    let digit : is_digit (b'0' + n % 10) ≡ true = ground arith in
    let same : n / 10 * 10 + (b'0' + n % 10 - b'0') ≡ n = omega arith in rw (digit, same) refl

read_first : (n : ℕ) (out : Text) → n < 10 → read_digits 0 ((b'0' + n) ∷ out) ≡ read_digits n out
unfolding read_digits
read_first n out h =
    let digit : is_digit (b'0' + n) ≡ true = ground arith in
    let same : 0 * 10 + (b'0' + n - b'0') ≡ n = omega arith in rw (digit, same) refl

-- The text starts with a digit and is read as its number.
read_digits-decimal_rounds :
    (f n : ℕ) (out : Text)
    → n < 10 ^ suc f
    → (c : ℕ) × (t : Text) × (decimal_rounds (suc f) n out ≡ c ∷ t)
      × (is_digit c ≡ true)
      × (read_digits 0 (c ∷ t) ≡ read_digits n out)
unfolding decimal_rounds
read_digits-decimal_rounds zero n out h =
    let small : ltb n 10 ≡ true = ground arith in
    (b'0' + n, out, rw small refl, ground arith, read_first n out (omega arith))
read_digits-decimal_rounds (suc f) n out h =
    let (c, t, made, digit, read) =
      read_digits-decimal_rounds f (n / 10) ((b'0' + n % 10) ∷ out) (omega arith) in
    elim (Bool-cases (ltb n 10)) [
      | inl small ↦ (b'0' + n, out, rw small refl, ground arith, read_first n out (ground arith))
      | inr large ↦ (c, t, rw large made, digit, read ∙ read_digits-last n out)
    ]

pub decimal-digits :
    (n : ℕ)
    → n < 10 ^ 20
    → (c : ℕ) × (t : Text) × (decimal n ≡ c ∷ t) × (is_digit c ≡ true) × (read_digits 0 (c ∷ t) ≡ n)
unfolding decimal read_digits
decimal-digits n h = read_digits-decimal_rounds 19 n [] h

pub decimal-all_digits : (n : ℕ) → all is_digit (decimal n) ≡ true
unfolding decimal
decimal-all_digits n = decimal_rounds-digits 20 n [] refl

pub skip_spaces-digit : (c : ℕ) (t : Text) → is_digit c ≡ true → skip_spaces (c ∷ t) ≡ c ∷ t
skip_spaces-digit c t d = ground arith

port_of-digits :
    (c : ℕ) (t : Text) (n : ℕ)
    → is_digit c ≡ true
    → read_digits 0 (c ∷ t) ≡ n
    → n < 2 ^ 31
    → port_of (c ∷ t) ≡ some (n % 2 ^ 16)
unfolding port_of
port_of-digits c t n d r h =
    let front = skip_spaces-digit c t d in
    let minus : (c == b'-') ≡ false = ground arith in
    let plus : (c == b'+') ≡ false = ground arith in
    let small : ltb n (2 ^ 31) ≡ true = ground arith in
    rw (front, port_of) (rw (minus, plus, d, magnitude, r, small) refl)

pub port_of-decimal : (n : ℕ) → n < 2 ^ 31 → port_of (decimal n) ≡ some (n % 2 ^ 16)
port_of-decimal n h =
    let (c, t, made, digit, read) = decimal-digits n (omega arith) in
    rw made (port_of-digits c t n digit read h)

-- A host that is not empty, a ':' and a decimal number below 2^31 that is no multiple of 2^16 are
-- taken apart into the host and the low sixteen bits of the number.
parse_endpoint-decimal :
    (host : Text) (n : ℕ)
    → host ≢ []
    → n < 2 ^ 31
    → 0 < n % 2 ^ 16
    → parse_endpoint (host ++ b':' ∷ decimal n) ≡ some (host, n % 2 ^ 16)
unfolding parse_endpoint
parse_endpoint-decimal [] n h q p = absurd (h refl)
parse_endpoint-decimal (c ∷ host) n h q p =
    let split =
      split_last-append (c ∷ host) (decimal n)
        (split_last-digits (decimal n) (decimal-all_digits n)) in
    let port : ltb 0 (n % 2 ^ 16) ≡ true = ground arith in
    rw (split, parse_endpoint, port_of-decimal n q, port) refl

-- An endpoint that the node writes for a host that is not empty and a port other than 0 is taken
-- apart into the host and the port.
pub parse_endpoint-make_endpoint :
    (host : Text) (port : ℕ)
    → host ≢ []
    → 0 < port
    → port < 2 ^ 16
    → parse_endpoint (make_endpoint host port) ≡ some (host, port)
unfolding make_endpoint
parse_endpoint-make_endpoint host port h p q =
    let same : port % 2 ^ 16 ≡ port = omega arith in
    subst (λ n. parse_endpoint (make_endpoint host port) ≡ some (host, n)) same
      (parse_endpoint-decimal host port h (omega arith) (omega (arith, same)))
