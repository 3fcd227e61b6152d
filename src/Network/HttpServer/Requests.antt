-- ===== src/Network/HttpServer/Requests.antt =====
-- src/network/http_server.cpp: `parseRequest`, and the part of `handleConnection` that reads.
use personalblockchain.Prelude.{
  ℕ, ◌-◌, ◌*◌, ◌%◌, Option, none, some, List, [], ◌∷◌, ◌++◌, Text, is_empty, length, take, drop,
  ltb, ◌==◌, if◌then◌else◌, codes, text_eq, to_lower, u64_mod,
}
use personalblockchain.Prelude.Map.{Map, insert, lookup}
use personalblockchain.Network.PeerManager.Endpoint.{skip_spaces, magnitude}
use personalblockchain.Network.HttpServer.Words.{cut, lines}

pub record HttpRequest : Type 0 where
  pub method : Text
  pub path : Text
  pub headers : Map Text
  pub body : Text

abbrev pub empty_request : HttpRequest
empty_request = record { method = []; path = []; headers = []; body = [] }

-- A '\r' at the end is removed.
unfoldable pub chomp : Text → Text
chomp [] = []
chomp (c ∷ []) = if c == 13 then [] else c ∷ []
chomp (c ∷ d ∷ s) = c ∷ chomp (d ∷ s)

unfoldable pub drop_blanks : Text → Text
drop_blanks [] = []
drop_blanks (c ∷ s) = let later = drop_blanks s in if c == b' ' then later else c ∷ s

-- Method and path stand before the first two blanks.
unfoldable pub read_request_line : Text → HttpRequest → HttpRequest
read_request_line line req = elim (cut b' ' line) [
  | none ↦ req
  | some (method, rest) ↦ elim (cut b' ' rest) [
    | none ↦ req
    | some (path, version) ↦ record req { method = method; path = path }
  ]
]

unfoldable pub read_header : Text → Map Text → Map Text
read_header line headers = elim (cut b':' line) [
  | none ↦ headers
  | some (key, value) ↦ insert (to_lower key) (drop_blanks value) headers
]

-- The loop over the headers ends at an empty line.
unfoldable pub read_headers : List Text → Map Text → Map Text
read_headers [] headers = headers
read_headers (raw ∷ rest) headers =
    let line = chomp raw in
    let later = read_headers rest (read_header line headers) in
    if is_empty line then headers else later

unfoldable pub read_lines : List Text → HttpRequest
read_lines [] = empty_request
read_lines (first ∷ rest) = record (read_request_line (chomp first) empty_request) {
  headers = read_headers rest [];
}

unfoldable pub parse_request : Text → HttpRequest
parse_request raw = read_lines (lines 10 raw)

abbrev pub blank_line : Text
blank_line = 13 ∷ 10 ∷ 13 ∷ 10 ∷ []

-- What `async_read_until` has read, cut behind the first empty line; nothing where there is none.
unfoldable pub split_headers : Text → Option (Text × Text)
split_headers [] = none
split_headers (c ∷ s) =
    let later = split_headers s in
    if text_eq (take 4 (c ∷ s)) blank_line
    then some (blank_line, drop 3 s)
    else elim later [ none ↦ none | some (raw, extra) ↦ some (c ∷ raw, extra) ]

abbrev in_u64 : ℕ → Option ℕ
in_u64 n = if ltb n u64_mod then some n else none

-- `std::stoul`; nothing where it throws.
unfoldable pub stoul : Text → Option ℕ
stoul s = elim (skip_spaces s) [
  | [] ↦ none
  | c ∷ t ↦
      if c == b'-'
      then elim (magnitude t) [
        | none ↦ none
        | some n ↦ elim (in_u64 n) [ none ↦ none | some m ↦ some ((u64_mod - m) % u64_mod) ]
      ]
      else elim (magnitude (if c == b'+' then t else c ∷ t)) [ none ↦ none | some n ↦ in_u64 n ]
]

abbrev pub max_body_size : ℕ
max_body_size = 1 * 1024 * 1024

-- What becomes of a request: it is handled, or refused for its length.
pub data Received : Type 0 where
  received : HttpRequest → Received
  invalid_length : Received
  too_large : Received

-- The body, of which `extra` has come with the headers. `incoming n` is what a read of `n` more
-- bytes gives, nothing where it fails: the request is then handled without its body.
unfoldable pub receive_body : (ℕ → Option Text) → ℕ → Text → HttpRequest → HttpRequest
receive_body incoming content_len extra req =
    let remaining = content_len - length extra in
    if ltb 0 remaining
    then elim (incoming remaining) [ none ↦ req | some more ↦ record req { body = extra ++ more } ]
    else record req { body = take content_len extra }

-- Without a length the body is left unread.
unfoldable pub receive : (ℕ → Option Text) → Text → Text → Received
receive incoming raw extra =
    let req = parse_request raw in
    elim (lookup (codes "content-length") req.headers) [
      | none ↦ received req
      | some value ↦ elim (stoul value) [
        | none ↦ invalid_length
        | some content_len ↦
            if ltb max_body_size content_len
            then too_large
            else received (receive_body incoming content_len extra req)
      ]
    ]
