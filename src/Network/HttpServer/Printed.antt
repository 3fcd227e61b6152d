-- ===== src/Network/HttpServer/Printed.antt =====
-- src/network/http_server.cpp: a request that a client prints is received as it was.
use personalblockchain.Prelude.{
  ℕ, ◌≤◌, ◌≡◌, ap, refl, false, some, List, [], ◌∷◌, ◌++◌, Text, codes, length, decimal, take,
  arith, ltb,
}
use personalblockchain.Prelude.Map.{lookup}
use personalblockchain.Network.HttpServer.Requests.{
  HttpRequest, received, read_request_line, read_lines, parse_request, empty_request, split_headers,
  receive, max_body_size,
}
use personalblockchain.Network.HttpServer.Framing.{
  Lacks, cut-Lacks, Lacks-append, chomp-append, stoul-decimal,
}
use personalblockchain.Network.HttpServer.Bodies.{arriving, receive_body-arriving}
use personalblockchain.Network.HttpServer.Printing.{
  request_line, print_headers, print_request, entered, ArePlain, IsWord, lines-line,
  read_headers-print_headers, split_headers-first_line,
}

read_request_line-print :
    (method path : Text)
    → Lacks b' ' method
    → Lacks b' ' path
    → read_request_line (request_line method path) empty_request
      ≡ record { method = method; path = path; headers = []; body = [] }
unfolding read_request_line
read_request_line-print method path h k =
    rw
      (
        read_request_line,
        cut-Lacks b' ' method (path ++ b' ' ∷ codes "HTTP/1.1") h,
        cut-Lacks b' ' path (codes "HTTP/1.1") k,
      )
      refl

request_line-Lacks :
    (c : ℕ) (method path : Text)
    → Lacks c method
    → Lacks c (b' ' ∷ [])
    → Lacks c path
    → Lacks c (b' ' ∷ codes "HTTP/1.1")
    → Lacks c (request_line method path)
request_line-Lacks c method path h b k v =
    Lacks-append c method (b' ' ∷ (path ++ (b' ' ∷ codes "HTTP/1.1"))) h
      (ground (arith, Lacks-append c path (b' ' ∷ codes "HTTP/1.1") k v))

parse_request-print_request :
    (method path : Text) (headers : List (Text × Text))
    → IsWord method
    → IsWord path
    → ArePlain headers
    → parse_request (print_request method path headers [])
      ≡ record { method = method; path = path; headers = entered headers []; body = [] }
unfolding parse_request read_lines
parse_request-print_request method path headers h k plain =
    let s = request_line method path in
    let first =
      lines-line s (print_headers headers [])
        (request_line-Lacks 10 method path h.0.0 refl k.0.0 refl) in
    rw
      (
        first,
        read_lines,
        chomp-append s,
        read_request_line-print method path h.1 k.1,
        read_headers-print_headers headers [] plain,
      )
      refl

split_headers-print_request :
    (method path : Text) (headers : List (Text × Text)) (body : Text)
    → IsWord method
    → IsWord path
    → ArePlain headers
    → split_headers (print_request method path headers body)
      ≡ some (print_request method path headers [], body)
split_headers-print_request method path headers body h k plain =
    split_headers-first_line (request_line method path) headers body
      (request_line-Lacks 13 method path h.0.1 refl k.0.1 refl) plain

take_all : (s : Text) → take (length s) s ≡ s
take_all [] = refl
take_all (c ∷ s) = ap (◌∷◌ c) (take_all s)

-- A request that a client prints line by line, with the decimal length of its body, of at most 1 MB,
-- is received with the method, the path, the headers and the body that it was printed from,
-- wherever the first read ends, if no name holds what ends it.
pub receive-print_request :
    (method path : Text) (headers : List (Text × Text)) (extra rest : Text)
    → IsWord method
    → IsWord path
    → ArePlain headers
    → lookup (codes "content-length") (entered headers []) ≡ some (decimal (length (extra ++ rest)))
    → length (extra ++ rest) ≤ max_body_size
    → (split_headers (print_request method path headers extra)
        ≡ some (print_request method path headers [], extra))
      × (receive (arriving rest) (print_request method path headers []) extra
          ≡ received (record {
            method = method;
            path = path;
            headers = entered headers [];
            body = extra ++ rest;
          }))
unfolding receive
receive-print_request method path headers extra rest h k plain announced fits = (
  split_headers-print_request method path headers extra h k plain,
  let small : ltb max_body_size (length (extra ++ rest)) ≡ false = ground arith in
      let got : HttpRequest = record {
        method = method;
        path = path;
        headers = entered headers [];
        body = [];
      } in
      rw
        (
          receive,
          parse_request-print_request method path headers h k plain,
          announced,
          stoul-decimal (length (extra ++ rest)) (omega arith),
          small,
          parse_request-print_request method path headers h k plain,
          receive_body-arriving (length (extra ++ rest)) extra rest got (omega arith),
          take_all (extra ++ rest),
        )
        refl,
)
