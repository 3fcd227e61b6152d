-- ===== src/Network/HttpServer/Routing.antt =====
-- src/network/http_server.cpp: `handleRequest`.
use personalblockchain.Prelude.{
  ◌&&◌, Bool, Option, none, some, Text, codes, text_eq, take, drop, length, if◌then◌else◌,
}
use personalblockchain.Json.{Json}
use personalblockchain.Platform.{Platform}
use personalblockchain.Consensus.{Engine}
use personalblockchain.Blockchain.{Storage}
use personalblockchain.Network.HttpServer.{HttpServer, Moment}
use personalblockchain.Network.HttpServer.Words.{cut}
use personalblockchain.Network.HttpServer.Requests.{HttpRequest}
use personalblockchain.Network.HttpServer.Responses.{
  HttpResponse, no_content, not_found, error_response,
}
use personalblockchain.Network.HttpServer.Wallets.{
  handle_create_wallet, handle_import_wallet, handle_wallet_login, handle_login_challenge,
  handle_verify_login,
}
use personalblockchain.Network.HttpServer.Sending.{handle_send_transaction}
use personalblockchain.Network.HttpServer.Mining.{handle_mine}
use personalblockchain.Network.HttpServer.Views.{
  handle_get_chain, handle_get_transactions, handle_get_mempool, handle_get_wallet_balance,
  handle_get_wallet_transactions, handle_get_peers, handle_get_peer_scores, handle_health,
  handle_network_stats,
}

-- The path without its query.
unfoldable pub route_path : Text → Text
route_path path = elim (cut b'?' path) [ none ↦ path | some (before, query) ↦ before ]

-- `rfind(prefix, 0) == 0`
abbrev starts_with : Text → Text → Bool
starts_with prefix s = text_eq (take (length prefix) s) prefix

abbrev is_route : HttpRequest → Text → Text → Bool
is_route req method path = text_eq req.method method && text_eq (route_path req.path) path

-- A method, and how the path begins.
abbrev pub is_route_below : HttpRequest → Text → Text → Bool
is_route_below req method prefix =
    text_eq req.method method && starts_with prefix (route_path req.path)

-- The path behind the prefix.
abbrev pub argument : HttpRequest → Text → Text
argument req prefix = drop (length prefix) (route_path req.path)

unfoldable pub handle_trade : {J : Type 0} → Json J → HttpResponse
handle_trade json =
    error_response json 501 (codes "Not Implemented") (codes "TRADE_NOT_IMPLEMENTED")
      (codes "Trade endpoint is not implemented yet")

module _ {J : Type 0} {D : Type 0} (json : Json J) (P : Platform) (m : Moment) where
  -- The routes of a GET, and no route.
  unfoldable pub handle_get : HttpRequest → HttpServer J D → HttpServer J D × HttpResponse
  handle_get req s =
      if is_route req (codes "GET") (codes "/chain")
      then (s, handle_get_chain json P s)
      else if is_route req (codes "GET") (codes "/transactions")
      then (s, handle_get_transactions json m.what s)
      else if is_route req (codes "GET") (codes "/mempool")
      then (s, handle_get_mempool json m.what s)
      else if is_route_below req (codes "GET") (codes "/wallet/balance/")
      then handle_get_wallet_balance json (argument req (codes "/wallet/balance/")) s
      else if is_route_below req (codes "GET") (codes "/wallet/transactions/")
      then (
        s,
        handle_get_wallet_transactions json m.what (argument req (codes "/wallet/transactions/")) s,
      )
      else if is_route req (codes "GET") (codes "/peers")
      then (s, handle_get_peers json s)
      else if is_route req (codes "GET") (codes "/peers/scores")
      then (s, handle_get_peer_scores json s)
      else if is_route req (codes "GET") (codes "/network/stats")
      then (s, handle_network_stats json m s)
      else if is_route req (codes "GET") (codes "/health")
      then (s, handle_health json s)
      else if is_route req (codes "GET") (codes "/status")
      then (s, handle_health json s)
      else (s, not_found)

module _ {J : Type 0} {D : Type 0} (json : Json J) (P : Platform) (engine : Option Engine)
    (storage : Option (Storage D)) (m : Moment) where
  -- In the order of the source. Nothing where mining does not end.
  unfoldable pub handle_request :
      HttpRequest → HttpServer J D → Option (HttpServer J D × HttpResponse)
  handle_request req s =
      if text_eq req.method (codes "OPTIONS")
      then some (s, no_content)
      else if is_route req (codes "POST") (codes "/wallet/create")
      then some (handle_create_wallet json P m s)
      else if is_route req (codes "POST") (codes "/wallet/import")
      then some (handle_import_wallet json P m req.body s)
      else if is_route req (codes "POST") (codes "/wallet/login")
      then some (handle_wallet_login json P m req.body s)
      else if is_route req (codes "POST") (codes "/wallet/loginChallenge")
      then some (handle_login_challenge json P m req.body s)
      else if is_route req (codes "POST") (codes "/wallet/verifyLogin")
      then some (handle_verify_login json P m req.body s)
      else if is_route req (codes "POST") (codes "/transaction/send")
      then some (handle_send_transaction json P m req.body s)
      else if is_route_below req (codes "POST") (codes "/mine")
      then handle_mine json P engine storage m req.body req.path s
      else if is_route req (codes "POST") (codes "/api/trade")
      then some (s, handle_trade json)
      else some (handle_get json P m req s)
