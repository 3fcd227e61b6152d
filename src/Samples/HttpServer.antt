-- ===== src/Samples/HttpServer.antt =====
-- The HTTP interface, the start of a node and its configuration at concrete inputs.
use personalblockchain.Prelude.{
  ℕ, zero, suc, ◌≤◌, ◌≡◌, refl, true, false, none, some, Option, List, [], ◌∷◌, Text, codes,
  is_empty, text_eq, text_lt, to_lower, decimal, length, arith,
}
use personalblockchain.Prelude.Map.{lookup, insert}
use personalblockchain.Crypto.{generate_key_pair}
use personalblockchain.Wallet.{create_wallet, is_valid_wallet_address, address_from_public_key}
use personalblockchain.Wallet.Addresses.{address_from_public_key-is_valid}
use personalblockchain.Network.NodeIdentity.{
  NodeIdentityRecord, file_of, persist, create, choose, load_or_create, identity_of,
}
use personalblockchain.Network.NodeIdentity.Restart.{moved, load_or_create-restart}
use personalblockchain.Network.HttpServer.Words.{
  cut, lines, trim, trim_start, trim_end, find_pair, query_param,
}
use personalblockchain.Network.HttpServer.Requests.{
  HttpRequest, received, chomp, read_lines, read_request_line, read_header, read_headers,
  drop_blanks, parse_request, split_headers, receive, max_body_size,
}
use personalblockchain.Network.HttpServer.Responses.{response, serialize}
use personalblockchain.Network.HttpServer.Bodies.{arriving, receive-max_body_size}
use personalblockchain.Network.HttpServer.Printing.{ArePlain, nil, cons, print_request, entered}
use personalblockchain.Network.HttpServer.Printed.{receive-print_request}
use personalblockchain.Network.HttpServer.Answers.{serialize-split_headers}
use personalblockchain.Main.{PeerAddress, default_config, parse_peer_list}
use personalblockchain.Main.Arguments.{stoi, set_option, configured, apply_args}
use personalblockchain.Main.Peers as Peers
use personalblockchain.Network.PeerManager.Endpoint.{read_digits}
use personalblockchain.Main.Peers.{AreAddresses, print_peers, parse_peer_list-print_peers}
use personalblockchain.Samples.Toy.{toy, toy-IsSound}
use personalblockchain.Samples.Values.{values, values-IsLawful}

address_from_public_key-is_valid_example :
    is_valid_wallet_address (address_from_public_key toy (codes "alice")) ≡ true
address_from_public_key-is_valid_example =
    address_from_public_key-is_valid toy toy-IsSound.digest_length toy-IsSound.digest_bytes
      (codes "alice")

serialize-split_headers_example :
    (head : Text) × (split_headers (serialize (response 200 (codes "OK") (codes "{}")))
      ≡ some (head, codes "{}"))
    × (lookup (codes "content-length") (parse_request head).headers ≡ some (decimal 2))
serialize-split_headers_example = serialize-split_headers 200 (codes "OK") (codes "{}") (refl, refl)

abbrev headers : List (Text × Text)
headers = (codes "Host", codes "localhost") ∷ (codes "Content-Length", codes "7") ∷ []

headers-ArePlain : ArePlain headers
unfolding drop_blanks
headers-ArePlain =
    cons (refl, refl) refl (refl, refl) refl (cons (refl, refl) refl (refl, refl) refl nil)

announced : lookup (codes "content-length") (entered headers []) ≡ some (decimal 7)
unfolding lookup insert text_eq text_lt to_lower decimal
announced = refl

receive-print_request_example :
    (split_headers (print_request (codes "POST") (codes "/mine") headers (codes "{\"a"))
      ≡ some (print_request (codes "POST") (codes "/mine") headers [], codes "{\"a"))
    × (receive
          (arriving (codes "\":1}"))
          (print_request (codes "POST") (codes "/mine") headers [])
          (codes "{\"a")
        ≡ received (record {
          method = codes "POST";
          path = codes "/mine";
          headers = entered headers [];
          body = codes "{\"a\":1}";
        }))
receive-print_request_example =
    receive-print_request (codes "POST") (codes "/mine") headers (codes "{\"a") (codes "\":1}")
      ((refl, refl), refl) ((refl, refl), refl) headers-ArePlain announced (omega arith)

abbrev posted : HttpRequest
posted = record {
  method = codes "POST";
  path = codes "/mine";
  headers = entered headers [];
  body = codes "{\"a\":1}";
}

nothing_more : (n : ℕ) (s : Text) → arriving [] n ≡ some s → length s ≡ n
nothing_more zero s e = ground arith
nothing_more (suc n) s e = absurd (ground arith)

receive-max_body_size_example : length posted.body ≤ max_body_size
receive-max_body_size_example =
    receive-max_body_size (arriving []) (print_request (codes "POST") (codes "/mine") headers [])
      (codes "{\"a\":1}") posted nothing_more
      (receive-print_request (codes "POST") (codes "/mine") headers (codes "{\"a\":1}") []
        ((refl, refl), refl) ((refl, refl), refl) headers-ArePlain announced (omega arith)).1

abbrev drawn : Option (Text × Text)
drawn = some (codes "C0FFEE", codes "02AB")

filled : (a b : Text) → drawn ≡ some (a, b) → (is_empty a ≡ false) × (is_empty b ≡ false)
filled a b e = ground arith

abbrev identity : NodeIdentityRecord
identity =
    identity_of values toy 6000 []
      (record { private_key = codes "c0ffee"; public_key = codes "02ab" })

first_start :
    load_or_create values toy true 6000 [] drawn none
    ≡ some (identity, (some (file_of values identity), true))
unfolding load_or_create choose create create_wallet generate_key_pair persist to_lower
first_start = refl

load_or_create-restart_example :
    load_or_create values toy false 7000
      (codes "node.example")
      none
      (some (file_of values identity))
    ≡ some (
      moved 7000 (codes "node.example") identity,
      persist values false
          (moved 7000 (codes "node.example") identity)
          (some (file_of values identity)),
    )
load_or_create-restart_example =
    load_or_create-restart values values-IsLawful toy (λ s. refl) 6000 [] drawn none
      (some (file_of values identity)) identity filled first_start false 7000 (codes "node.example")
      none

abbrev seeds : List PeerAddress
seeds = record { host = codes "a"; port = 6000 } ∷ record { host = codes "::1"; port = 6001 } ∷ []

seeds-AreAddresses : AreAddresses seeds
seeds-AreAddresses =
    Peers.cons
      (record {
        host_given = refl;
        one_entry = refl;
        port_positive = omega arith;
        port_small = omega arith;
      })
      (Peers.cons
        (record {
          host_given = refl;
          one_entry = refl;
          port_positive = omega arith;
          port_small = omega arith;
        })
        Peers.nil)

parse_peer_list-print_peers_example : parse_peer_list (print_peers seeds) [] ≡ some seeds
parse_peer_list-print_peers_example = parse_peer_list-print_peers seeds [] seeds-AreAddresses

-- An answer with no body for a request that announces none.
health_line : parse_request (codes "GET /health HTTP/1.1\r\nHost : x\r\n\r\n") ≡ record {
  method = codes "GET";
  path = codes "/health";
  headers = (codes "host ", codes "x") ∷ [];
  body = [];
}
unfolding parse_request read_lines lines chomp read_request_line cut read_headers read_header
    drop_blanks insert to_lower
health_line = refl

trim_sample : trim (codes "\t PCN_ab \n") ≡ codes "PCN_ab"
unfolding trim trim_start trim_end
trim_sample = refl

query_sample :
    query_param (codes "/mine?a=1&minerAddress=x&minerAddress=y") (codes "minerAddress") ≡ codes "x"
unfolding query_param cut lines find_pair text_eq
query_sample = refl

-- An option that is the last argument does nothing, and a later one replaces an earlier one.
args_sample :
    apply_args none
      (codes "--port" ∷ codes "7000" ∷ codes "--port" ∷ codes "65537" ∷ codes "--name" ∷ [])
      default_config
    ≡ some (configured (record default_config { p2p_port = 1 }))
unfolding apply_args set_option text_eq stoi read_digits
args_sample = refl
