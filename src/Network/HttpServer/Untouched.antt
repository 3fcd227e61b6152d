-- ===== src/Network/HttpServer/Untouched.antt =====
-- src/network/http_server.cpp: the handlers that leave the node as it is, and when it
-- has mined.
use personalblockchain.Prelude.{◌≡◌, arith, Text}
use personalblockchain.Json.{Json}
use personalblockchain.Platform.{Platform}
use personalblockchain.Network.HttpServer.{HttpServer, Moment}
use personalblockchain.Network.HttpServer.Requests.{HttpRequest}
use personalblockchain.Network.HttpServer.Wallets.{
  handle_create_wallet, handle_import_wallet, handle_wallet_login, handle_login_challenge,
  take_login, handle_verify_login,
}
use personalblockchain.Network.HttpServer.Views.{handle_get_wallet_balance}
use personalblockchain.Network.HttpServer.Routing.{handle_get}

module _ {J : Type 0} {D : Type 0} where
  abbrev pub KeepsNode : HttpServer J D → HttpServer J D → Type 0
  KeepsNode s after = (after.node ≡ s.node) × (after.last_mine_at ≡ s.last_mine_at)

module _ {J : Type 0} {D : Type 0} (json : Json J) (P : Platform) (m : Moment) where
  pub handle_create_wallet-KeepsNode :
      (s : HttpServer J D) → KeepsNode s (handle_create_wallet json P m s).0
  unfolding handle_create_wallet
  handle_create_wallet-KeepsNode s = ground arith

  pub handle_import_wallet-KeepsNode :
      (body : Text) (s : HttpServer J D) → KeepsNode s (handle_import_wallet json P m body s).0
  unfolding handle_import_wallet
  handle_import_wallet-KeepsNode body s = ground arith

  pub handle_wallet_login-KeepsNode :
      (body : Text) (s : HttpServer J D) → KeepsNode s (handle_wallet_login json P m body s).0
  unfolding handle_wallet_login
  handle_wallet_login-KeepsNode body s = ground arith

  pub handle_login_challenge-KeepsNode :
      (body : Text) (s : HttpServer J D) → KeepsNode s (handle_login_challenge json P m body s).0
  unfolding handle_login_challenge
  handle_login_challenge-KeepsNode body s = ground arith

  pub handle_verify_login-KeepsNode :
      (body : Text) (s : HttpServer J D) → KeepsNode s (handle_verify_login json P m body s).0
  unfolding handle_verify_login take_login
  handle_verify_login-KeepsNode body s = ground arith

  pub handle_get-KeepsNode :
      (req : HttpRequest) (s : HttpServer J D) → KeepsNode s (handle_get json P m req s).0
  unfolding handle_get handle_get_wallet_balance
  handle_get-KeepsNode req s = ground arith
