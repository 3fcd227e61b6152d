-- ===== src/Network/HttpServer/Refusals.antt =====
-- src/network/http_server.cpp: an answer other than 200 leaves the node as it was.
use personalblockchain.Prelude.{
  ◌≡◌, false, codes, ◌≢◌, ◌⊎◌, inl, inr, refl, subst, Option, some, none, Text, Option-cases, arith,
}
use personalblockchain.Platform.{Platform}
use personalblockchain.Json.{Json, IsLawful}
use personalblockchain.Consensus.{Engine}
use personalblockchain.Blockchain.{Storage}
use personalblockchain.Network.HttpServer.{HttpServer, Moment}
use personalblockchain.Network.HttpServer.Requests.{HttpRequest}
use personalblockchain.Network.HttpServer.Responses.{HttpResponse}
use personalblockchain.Network.HttpServer.Sending.{
  SendRequest, read_send_request, take_send_request, handle_send_transaction,
}
use personalblockchain.Network.HttpServer.Sends.{take_send_request-IsSendable}
use personalblockchain.Network.HttpServer.Untouched.{
  handle_create_wallet-KeepsNode, handle_import_wallet-KeepsNode, handle_wallet_login-KeepsNode,
  handle_login_challenge-KeepsNode, handle_verify_login-KeepsNode, handle_get-KeepsNode,
}
use personalblockchain.Network.HttpServer.Routing.{is_route_below, handle_request}

module _ {J : Type 0} {D : Type 0} where
  abbrev IsGentle : HttpServer J D → Option (HttpServer J D × HttpResponse) → Type 0
  IsGentle s none = Unit {0}
  IsGentle s (some (after, r)) = (r.status_code ≡ 200) ⊎ (after.node ≡ s.node)

module _ {J : Type 0} {D : Type 0} (json : Json J) (laws : IsLawful json) (P : Platform)
    (engine : Option Engine) (storage : Option (Storage D)) (m : Moment) where
  take_send_request-IsGentle :
      (r : SendRequest) (s : HttpServer J D) → IsGentle s (some (take_send_request json P m r s))
  take_send_request-IsGentle r s = elim (take_send_request-IsSendable json laws P m r s) [
    | inl (sendable, after, ok) ↦ inl ok
    | inr (out, same, refused) ↦ inr (rw same refl)
  ]

  handle_send_transaction-IsGentle :
      (body : Text) (s : HttpServer J D)
      → IsGentle s (some (handle_send_transaction json P m body s))
  unfolding handle_send_transaction
  handle_send_transaction-IsGentle body s = elim (Option-cases (read_send_request json body)) [
    | inl out ↦ rw (out, handle_send_transaction) (inr refl)
    | inr (r, read) ↦ rw (read, handle_send_transaction) (take_send_request-IsGentle r s)
  ]

  handle_request-IsGentle :
      (req : HttpRequest) (s : HttpServer J D)
      → is_route_below req (codes "POST") (codes "/mine") ≡ false
      → IsGentle s (handle_request json P engine storage m req s)
  unfolding handle_request
  handle_request-IsGentle req s other = ground (
    arith,
    handle_create_wallet-KeepsNode json P m s,
    handle_import_wallet-KeepsNode json P m req.body s,
    handle_wallet_login-KeepsNode json P m req.body s,
    handle_login_challenge-KeepsNode json P m req.body s,
    handle_verify_login-KeepsNode json P m req.body s,
    handle_send_transaction-IsGentle req.body s,
    handle_get-KeepsNode json P m req s,
  )

  -- A request other than one to mine that is answered with another status than 200 leaves the node as
  -- it was, its chain, its mempool and its peers included, if the JSON library does as documented.
  pub handle_request-refused :
      (req : HttpRequest) (s after : HttpServer J D) (r : HttpResponse)
      → handle_request json P engine storage m req s ≡ some (after, r)
      → is_route_below req (codes "POST") (codes "/mine") ≡ false
      → r.status_code ≢ 200
      → after.node ≡ s.node
  handle_request-refused req s after r e other refused =
      elim (subst (IsGentle s) e (handle_request-IsGentle req s other)) [
        | inl ok ↦ absurd (refused ok)
        | inr same ↦ same
      ]
