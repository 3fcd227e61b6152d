-- ===== src/Network/HttpServer/Words.antt =====
-- src/network/http_server.cpp: the texts of requests.
use personalblockchain.Prelude.{
  ℕ, Bool, not, ◌&&◌, ◌||◌, Option, none, some, List, [], ◌∷◌, Text, is_empty, text_eq, all, leb,
  ◌==◌, if◌then◌else◌,
}
use personalblockchain.Wallet.{is_hex_digit}

-- What stands before and behind the first `c`: `find` and two calls of `substr`.
unfoldable pub cut : ℕ → Text → Option (Text × Text)
cut c [] = none
cut c (d ∷ s) =
    let later = cut c s in
    if d == c
    then some ([], s)
    else elim later [ none ↦ none | some (before, behind) ↦ some (d ∷ before, behind) ]

-- The lines that `std::getline` gives one by one until the stream ends.
unfoldable pub lines : ℕ → Text → List Text
lines c [] = []
lines c (d ∷ s) =
    let later = lines c s in
    if d == c
    then [] ∷ later
    else elim later [ [] ↦ (d ∷ []) ∷ [] | line ∷ rest ↦ (d ∷ line) ∷ rest ]

-- `std::isspace`
abbrev is_space : ℕ → Bool
is_space c = c == 32 || (leb 9 c && leb c 13)

unfoldable pub trim_start : Text → Text
trim_start [] = []
trim_start (c ∷ s) = let later = trim_start s in if is_space c then later else c ∷ s

unfoldable pub trim_end : Text → Text
trim_end [] = []
trim_end (c ∷ s) = let later = trim_end s in if is_space c && is_empty later then [] else c ∷ later

unfoldable pub trim : Text → Text
trim value = trim_end (trim_start value)

unfoldable is_likely_hex : Text → Bool
is_likely_hex value = not (is_empty value) && all is_hex_digit value

-- The loop over the pairs of the query.
unfoldable pub find_pair : Text → List Text → Text
find_pair key [] = []
find_pair key (pair ∷ pairs) =
    let later = find_pair key pairs in
    elim (cut b'=' pair) [
      | none ↦ later
      | some (name, value) ↦ if text_eq name key then value else later
    ]

unfoldable pub query_param : Text → Text → Text
query_param path key = elim (cut b'?' path) [
  | none ↦ []
  | some (before, query) ↦ find_pair key (lines b'&' query)
]
