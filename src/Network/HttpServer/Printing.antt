-- ===== src/Network/HttpServer/Printing.antt =====
-- src/network/http_server.cpp: how a client prints a request, and what the server makes of its headers.
use personalblockchain.Prelude.{
  ℕ, ◌≡◌, ◌≢◌, ◌∙◌, ap, sym, refl, false, some, List, [], ◌∷◌, ◌++◌, Text, codes, is_empty,
  append_assoc, to_lower, arith,
}
use personalblockchain.Prelude.Map.{Map, insert}
use personalblockchain.Network.HttpServer.Words.{lines}
use personalblockchain.Network.HttpServer.Requests.{
  chomp, drop_blanks, read_header, read_headers, read_lines, parse_request, split_headers,
}
use personalblockchain.Network.HttpServer.Framing.{
  Lacks, cut-Lacks, lines-Lacks, Lacks-append, chomp-append, onto, onto-onto, split_headers-Lacks,
  split_headers-line, split_headers-end,
}

abbrev header_line : Text → Text → Text
header_line key value = key ++ b':' ∷ b' ' ∷ value

abbrev pub print_headers : List (Text × Text) → Text → Text
print_headers [] rest = 13 ∷ 10 ∷ rest
print_headers ((key, value) ∷ headers) rest =
    header_line key value ++ 13 ∷ 10 ∷ print_headers headers rest

abbrev pub request_line : Text → Text → Text
request_line method path = method ++ (b' ' ∷ (path ++ (b' ' ∷ codes "HTTP/1.1")))

-- A request as a client writes it, up to a part of its body.
abbrev pub print_request : Text → Text → List (Text × Text) → Text → Text
print_request method path headers body =
    request_line method path ++ 13 ∷ 10 ∷ print_headers headers body

-- The headers as the server keeps them: a later one replaces an earlier one.
abbrev pub entered : List (Text × Text) → Map Text → Map Text
entered [] m = m
entered ((key, value) ∷ headers) m = entered headers (insert (to_lower key) value m)

abbrev pub IsOneLine : Text → Type 0
IsOneLine s = Lacks 10 s × Lacks 13 s

-- No line end, no ':' in a key, and no blank at the front of a value.
pub data ArePlain : List (Text × Text) → Type 0 where
  nil : ArePlain []
  cons :
      {key value : Text} {headers : List (Text × Text)}
      → IsOneLine key
      → Lacks b':' key
      → IsOneLine value
      → drop_blanks value ≡ value
      → ArePlain headers
      → ArePlain ((key, value) ∷ headers)

abbrev pub IsWord : Text → Type 0
IsWord s = IsOneLine s × Lacks b' ' s

pub lines-line :
    (s rest : Text) → Lacks 10 s → lines 10 (s ++ 13 ∷ 10 ∷ rest) ≡ (s ++ 13 ∷ []) ∷ lines 10 rest
lines-line s rest h =
    ap (lines 10) (sym (append_assoc s (13 ∷ []) (10 ∷ rest)))
    ∙ lines-Lacks 10 (s ++ 13 ∷ []) rest (Lacks-append 10 s (13 ∷ []) h refl)

read_header-line :
    (key value : Text) (m : Map Text)
    → Lacks b':' key
    → drop_blanks value ≡ value
    → read_header (header_line key value) m ≡ insert (to_lower key) value m
unfolding read_header drop_blanks
read_header-line key value m h e = rw (read_header, cut-Lacks b':' key (b' ' ∷ value) h, e) refl

is_empty-header_line : (key value : Text) → is_empty (header_line key value) ≡ false
is_empty-header_line [] value = refl
is_empty-header_line (c ∷ key) value = refl

header_line-Lacks :
    (c : ℕ) (key value : Text)
    → Lacks c key
    → Lacks c (b':' ∷ b' ' ∷ value)
    → Lacks c (header_line key value)
header_line-Lacks c key value h k = Lacks-append c key (b':' ∷ b' ' ∷ value) h k

pub read_headers-print_headers :
    (headers : List (Text × Text)) (m : Map Text)
    → ArePlain headers
    → read_headers (lines 10 (print_headers headers [])) m ≡ entered headers m
unfolding read_headers lines chomp
read_headers-print_headers [] m h = refl
read_headers-print_headers ((key, value) ∷ headers) m (cons one colon line front rest) =
    let s = header_line key value in
    let first =
      lines-line s (print_headers headers []) (header_line-Lacks 10 key value one.0 line.0) in
    let later = read_headers-print_headers headers (insert (to_lower key) value m) rest in
    rw
      (
        first,
        read_headers,
        chomp-append s,
        is_empty-header_line key value,
        read_header-line key value m colon front,
      )
      later

split_headers-next :
    (s rest : Text)
    → Lacks 13 s
    → s ≢ []
    → split_headers (13 ∷ 10 ∷ s ++ rest) ≡ onto (13 ∷ 10 ∷ s) (split_headers rest)
split_headers-next [] rest h ne = absurd (ne refl)
split_headers-next (c ∷ s) rest h ne =
    split_headers-line c (s ++ rest) (ground arith)
    ∙ ap (onto (13 ∷ 10 ∷ [])) (split_headers-Lacks (c ∷ s) rest h)
    ∙ onto-onto (13 ∷ 10 ∷ []) (c ∷ s) (split_headers rest)

header_line-ne-nil : (key value : Text) → header_line key value ≢ []
header_line-ne-nil [] value e = cc
header_line-ne-nil (c ∷ key) value e = cc

split_headers-print_headers :
    (headers : List (Text × Text)) (body : Text)
    → ArePlain headers
    → split_headers (13 ∷ 10 ∷ print_headers headers body)
      ≡ some (13 ∷ 10 ∷ print_headers headers [], body)
split_headers-print_headers [] body h = split_headers-end body
split_headers-print_headers ((key, value) ∷ headers) body (cons one colon line front rest) =
    let s = header_line key value in
    split_headers-next s (13 ∷ 10 ∷ print_headers headers body)
      (header_line-Lacks 13 key value one.1 line.1) (header_line-ne-nil key value)
    ∙ ap (onto (13 ∷ 10 ∷ s)) (split_headers-print_headers headers body rest)

-- The same behind any first line.
pub split_headers-first_line :
    (s : Text) (headers : List (Text × Text)) (body : Text)
    → Lacks 13 s
    → ArePlain headers
    → split_headers (s ++ 13 ∷ 10 ∷ print_headers headers body)
      ≡ some (s ++ 13 ∷ 10 ∷ print_headers headers [], body)
split_headers-first_line s headers body h plain =
    split_headers-Lacks s (13 ∷ 10 ∷ print_headers headers body) h
    ∙ ap (onto s) (split_headers-print_headers headers body plain)

pub parse_request-first_line :
    (s : Text) (headers : List (Text × Text))
    → Lacks 10 s
    → ArePlain headers
    → (parse_request (s ++ 13 ∷ 10 ∷ print_headers headers [])).headers ≡ entered headers []
unfolding parse_request read_lines
parse_request-first_line s headers h plain =
    rw
      (
        lines-line s (print_headers headers []) h,
        read_lines,
        read_headers-print_headers headers [] plain,
      )
      refl
