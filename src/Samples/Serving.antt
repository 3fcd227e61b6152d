-- ===== src/Samples/Serving.antt =====
-- Logging in over HTTP, and a node from its constructors on, at concrete inputs.
use personalblockchain.Prelude.{
  ◌≡◌, refl, true, none, some, [], Text, codes, text_eq, text_lt, to_lower, arith,
}
use personalblockchain.Prelude.Map.{lookup, insert, erase}
use personalblockchain.Crypto
use personalblockchain.Crypto.{bytes_to_hex, sha256, hex_to_bytes, read_pair, generate_key_pair}
use personalblockchain.Transaction.{derive_address_v2}
use personalblockchain.Blockchain.Invariant.{IsConsistent}
use personalblockchain.Blockchain.History as History
use personalblockchain.Wallet.{
  create_wallet, is_valid_wallet_address, address_from_public_key, verify_login,
}
use personalblockchain.Network.NodeIdentity.{
  persist, create, choose, load_or_create, file_of, identity_of,
}
use personalblockchain.Network.Node.{Node}
use personalblockchain.Network.Node.Starting.{new_node, construct_node}
use personalblockchain.Network.HttpServer.{HttpServer, new_http_server}
use personalblockchain.Network.HttpServer.Requests.{
  HttpRequest, split_headers, receive, parse_request, read_lines, chomp, read_request_line,
  read_headers, read_header,
}
use personalblockchain.Network.HttpServer.Bodies.{arriving}
use personalblockchain.Network.HttpServer.Connections.{reply_to, handle_connection}
use personalblockchain.Network.HttpServer.Words.{trim, trim_start, trim_end, cut, lines}
use personalblockchain.Network.HttpServer.Responses.{
  HttpResponse, success, error_response, serialize,
}
use personalblockchain.Network.HttpServer.Wallets.{
  know, read_private_key, read_challenge_request, read_login_request, handle_create_wallet,
  handle_wallet_login, handle_import_wallet, handle_login_challenge, handle_verify_login,
  take_login, wallet_created, invalid_private_key,
}
use personalblockchain.Network.HttpServer.Routing.{route_path, handle_request}
use personalblockchain.Network.HttpServer.Session.{starts, answers, goes_on, http_Session-Reach}
use personalblockchain.Network.HttpServer.Boot.{boot-IsConsistent}
use personalblockchain.Network.HttpServer.Logins.{
  logged_in, handle_verify_login-signed, handle_create_wallet-short,
}
use personalblockchain.Network.Node.Quiet.{beats}
use personalblockchain.Network.Node.Timers.{heartbeat_round}
use personalblockchain.Samples.Toy.{toy, toy-IsSound}
use personalblockchain.Samples.Values.{Value, object, text, member, values, values-IsLawful}
use personalblockchain.Samples.Texts.{alice_address}
use personalblockchain.Samples.Chain.{engine, storage, start, started, engine-Seals}
use personalblockchain.Samples.Node.{node, clock}
use personalblockchain.Network.HttpServer.Refusals.{handle_request-refused}
use personalblockchain.Samples.Sending.{same, moment, server, soon}

abbrev secret_body : Value
secret_body = member (codes "privateKey") (text (codes " C0FFEE")) object

secret_read : read_private_key values (values.dump none secret_body) ≡ some (codes "c0ffee")
unfolding read_private_key trim trim_start trim_end to_lower text_eq
secret_read = refl

handle_create_wallet-short_example :
    ((handle_create_wallet values toy moment server).1
      ≡ success values (
          wallet_created values toy (record {
            private_key = to_lower (codes "C0FFEE");
            public_key = to_lower (codes "02AB");
          })))
    × ((handle_wallet_login values toy moment
          (values.dump none secret_body)
          (handle_create_wallet values toy moment server).0).1
        ≡ invalid_private_key values)
    × ((handle_import_wallet values toy moment
          (values.dump none secret_body)
          (handle_create_wallet values toy moment server).0).1
        ≡ invalid_private_key values)
unfolding to_lower
handle_create_wallet-short_example =
    handle_create_wallet-short values toy moment moment (codes "C0FFEE") (codes "02AB")
      (values.dump none secret_body) server refl (λ e. cc) secret_read

abbrev asked : Value
asked =
    member (codes "address") (text alice_address)
      (member (codes "publicKey") (text (codes "alice")) object)

asked_read :
    read_challenge_request values (values.dump none asked)
    ≡ some (address_from_public_key toy (codes "alice"), codes "alice")
unfolding address_from_public_key derive_address_v2 sha256 bytes_to_hex text_eq
asked_read = refl

-- The signature of the challenge.
unfoldable proof : Text
unfolding Crypto.sign hex_to_bytes bytes_to_hex read_pair sha256
proof = elim (Crypto.sign toy (codes "challenge") (codes "secret")) [ none ↦ [] | some sig ↦ sig ]

proved : Crypto.sign toy (codes "challenge") (codes "secret") ≡ some proof
unfolding proof Crypto.sign hex_to_bytes bytes_to_hex read_pair sha256
proved = refl

abbrev answered : Value
answered =
    member (codes "challenge") (text (codes "challenge"))
      (member (codes "signature") (text proof) asked)

answered_read :
    read_login_request values (values.dump none answered)
    ≡ some (record {
      address = address_from_public_key toy (codes "alice");
      public_key = codes "alice";
      challenge = codes "challenge";
      signature = proof;
    })
unfolding read_login_request address_from_public_key derive_address_v2 proof Crypto.sign
    hex_to_bytes bytes_to_hex read_pair sha256 text_eq
answered_read = refl

handle_verify_login-signed_example :
    (handle_verify_login values toy soon
      (values.dump none answered)
      (handle_login_challenge values toy moment (values.dump none asked) server).0).1
    ≡ logged_in values toy 38_000_000_000 (address_from_public_key toy (codes "alice"))
handle_verify_login-signed_example =
    handle_verify_login-signed values toy moment soon (values.dump none asked)
      (values.dump none answered) (codes "secret") (codes "alice") proof server toy-IsSound refl
      refl proved asked_read answered_read (omega arith)

-- A server with a challenge for alice that has expired, and the login that comes too late for it.
abbrev waiting : HttpServer Value (Unit {0})
waiting = record server {
  challenges =
      insert (codes "challenge")
        (record { address = alice_address; public_key = codes "alice"; expires_at = 5 }) [];
}

abbrev late_login : HttpRequest
late_login = record {
  method = codes "POST";
  path = codes "/wallet/verifyLogin";
  headers = [];
  body = values.dump none (
      member (codes "challenge") (text (codes "challenge"))
        (member (codes "signature") (text (codes "00")) asked));
}

abbrev too_late : HttpResponse
too_late =
    error_response values 401 (codes "Unauthorized") (codes "AUTH_FAILED")
      (codes "Invalid login signature or expired challenge")

late_refused :
    handle_request values toy engine storage moment late_login waiting ≡ some (server, too_late)
unfolding handle_request handle_verify_login read_login_request take_login verify_login route_path
    cut address_from_public_key derive_address_v2 sha256 bytes_to_hex text_eq text_lt
    is_valid_wallet_address insert lookup erase new_http_server
late_refused = refl

handle_request-refused_example : server.node ≡ waiting.node
unfolding error_response route_path cut text_eq
handle_request-refused_example =
    handle_request-refused values values-IsLawful toy engine storage moment late_login waiting
      server too_late late_refused refl (omega arith)

-- The node of the start, from its constructor.
abbrev booted : Node Value (Unit {0})
booted =
    new_node node.sockets 6000 node.options
      (identity_of values toy 6000 []
        (record { private_key = codes "c0"; public_key = codes "02" }))
      start

http_Session-Reach_example :
    History.Reach toy engine storage (heartbeat_round values clock server.node).blockchain
unfolding new_http_server
http_Session-Reach_example =
    http_Session-Reach values toy engine storage same same {since = 0} {s = server}
      (goes_on (heartbeat_round values clock server.node) starts (beats clock))
      (History.Reach.starts 0 1000 1 tt start started)

constructed :
    construct_node values toy node.sockets true 6000 node.options
      (some (codes "C0", codes "02"))
      none
      start
    ≡ some (booted, some (file_of values booted.identity))
unfolding construct_node load_or_create choose create create_wallet generate_key_pair persist
    to_lower new_node
constructed = refl

abbrev creating : Text
creating = codes "POST /wallet/create HTTP/1.1\r\n\r\n"

abbrev with_wallet : HttpServer Value (Unit {0})
with_wallet = know (address_from_public_key toy (codes "02ab")) (new_http_server booted)

abbrev created : Text
created = serialize (
    success values (
      wallet_created values toy
        (record { private_key = codes "c0ffee"; public_key = codes "02ab" })))

-- A client that asks for a wallet.
answered_once :
    handle_connection values toy engine storage moment
      (arriving [])
      creating
      (new_http_server booted)
    ≡ some (with_wallet, some created)
unfolding handle_connection split_headers receive parse_request read_lines lines chomp
    read_request_line read_headers read_header cut reply_to handle_request route_path text_eq
    handle_create_wallet create_wallet generate_key_pair to_lower lookup
answered_once = refl

boot-IsConsistent_example : IsConsistent toy with_wallet.node.blockchain
boot-IsConsistent_example =
    boot-IsConsistent values toy engine storage same same engine-Seals 0 1000 1 tt start started
      node.sockets true 6000 node.options (some (codes "C0", codes "02")) none
      (some (file_of values booted.identity)) booted constructed {since = 0}
      (answers moment (arriving []) creating (some created) with_wallet starts (omega arith)
        (omega arith) answered_once)
