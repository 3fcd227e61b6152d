-- ===== src/Network/HttpServer/Connections.antt =====
-- src/network/http_server.cpp: `handleConnection`, from the bytes that are read to those that are written.
use personalblockchain.Prelude.{◌>>=◌, ℕ, Option, none, some, Text}
use personalblockchain.Json.{Json}
use personalblockchain.Platform.{Platform}
use personalblockchain.Consensus.{Engine}
use personalblockchain.Blockchain.{Storage}
use personalblockchain.Network.HttpServer.{HttpServer, Moment}
use personalblockchain.Network.HttpServer.Requests.{
  Received, received, invalid_length, too_large, split_headers, receive,
}
use personalblockchain.Network.HttpServer.Responses.{
  invalid_content_length, payload_too_large, serialize,
}
use personalblockchain.Network.HttpServer.Routing.{handle_request}

module _ {J : Type 0} {D : Type 0} (json : Json J) (P : Platform) (engine : Option Engine)
    (storage : Option (Storage D)) (m : Moment) where
  unfoldable pub reply_to : Received → HttpServer J D → Option (HttpServer J D × Option Text)
  reply_to invalid_length s = some (s, some (serialize invalid_content_length))
  reply_to too_large s = some (s, some (serialize payload_too_large))
  reply_to (received req) s = do
    (after, response) ← handle_request json P engine storage m req s
    some (after, some (serialize response))

  -- The state and what is written: nothing where the headers never end. Nothing at all where mining
  -- does not end.
  unfoldable pub handle_connection :
      (ℕ → Option Text) → Text → HttpServer J D → Option (HttpServer J D × Option Text)
  handle_connection incoming raw s = elim (split_headers raw) [
    | none ↦ some (s, none)
    | some (headers, extra) ↦ reply_to (receive incoming headers extra) s
  ]
