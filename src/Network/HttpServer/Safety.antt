-- ===== src/Network/HttpServer/Safety.antt =====
-- src/network/http_server.cpp: what a request can do to the chain of the node.
use personalblockchain.Prelude.{
  ℕ, ◌≡◌, refl, subst, ap, inl, inr, Option, none, some, Text, arith, Bool-cases, Option-cases,
}
use personalblockchain.Platform.{Platform}
use personalblockchain.Json.{Json}
use personalblockchain.Transaction.{Transaction}
use personalblockchain.Block.{Block}
use personalblockchain.Consensus.{Engine}
use personalblockchain.Blockchain.{Storage, add_transaction, mine_pending_transactions}
use personalblockchain.Blockchain.History as History
use personalblockchain.Network.Node.{Node}
use personalblockchain.Network.Node.Untouched.{broadcast_transaction-blockchain}
use personalblockchain.Network.Node.Quiet.{broadcast_block-blockchain}
use personalblockchain.Network.Node.Safety.{Evolves}
use personalblockchain.Network.HttpServer.{HttpServer, Moment}
use personalblockchain.Network.HttpServer.Requests.{
  HttpRequest, Received, received, invalid_length, too_large, split_headers, receive,
}
use personalblockchain.Network.HttpServer.Responses.{HttpResponse}
use personalblockchain.Network.HttpServer.Sending.{
  transaction_of, with_signature, tell_transaction, submit, check_tx_id, take_send_request,
  handle_send_transaction, read_send_request,
}
use personalblockchain.Network.HttpServer.Mining.{
  tell_block, mine_for, try_mine, handle_mine, read_miner,
}
use personalblockchain.Network.HttpServer.Untouched.{
  handle_create_wallet-KeepsNode, handle_import_wallet-KeepsNode, handle_wallet_login-KeepsNode,
  handle_login_challenge-KeepsNode, handle_verify_login-KeepsNode, handle_get-KeepsNode,
}
use personalblockchain.Network.HttpServer.Routing.{handle_request}
use personalblockchain.Network.HttpServer.Connections.{reply_to, handle_connection}

module _ {J : Type 0} {D : Type 0} (json : Json J) (P : Platform) (engine : Option Engine)
    (storage : Option (Storage D)) (m : Moment) where
  pub tell_transaction-blockchain :
      (tx : Transaction) (n : Node J D) → (tell_transaction json tx n).blockchain ≡ n.blockchain
  unfolding tell_transaction
  tell_transaction-blockchain tx n = ground (arith, broadcast_transaction-blockchain json tx n)

  pub tell_block-blockchain :
      (block : Block) (n : Node J D) → (tell_block json P block n).blockchain ≡ n.blockchain
  unfolding tell_block
  tell_block-blockchain block n =
      ground (arith, broadcast_block-blockchain json P (λ es. es) block n)

  submit-Evolves :
      (tx : Transaction) (s : HttpServer J D)
      → Evolves P engine storage s.node.blockchain (submit json P m tx s).0.node.blockchain
  unfolding submit
  submit-Evolves tx s =
      let result = add_transaction P m.clock.system s.node.blockchain tx in
      elim (Bool-cases result.1) [
        | inl accepted ↦
            rw (accepted, tell_transaction-blockchain tx (record s.node { blockchain = result.0 }))
              (inr (History.adds m.clock.system tx result.0 refl))
        | inr refused ↦ rw refused (inr (History.adds m.clock.system tx result.0 refl))
      ]

  handle_send_transaction-Evolves :
      (body : Text) (s : HttpServer J D)
      → Evolves P engine storage s.node.blockchain
          (handle_send_transaction json P m body s).0.node.blockchain
  unfolding handle_send_transaction take_send_request check_tx_id
  handle_send_transaction-Evolves body s = elim (Option-cases (read_send_request json body)) [
    | inl out ↦ rw (out, handle_send_transaction) (inl refl)
    | inr (r, read) ↦
        rw (read, handle_send_transaction)
          (ground (
            arith,
            submit-Evolves (with_signature r.signature (transaction_of P m.clock.system r)) s,
          ))
  ]

  -- Where an answer comes, the chain has evolved.
  abbrev pub Serves : {A : Type 0} → HttpServer J D → Option (HttpServer J D × A) → Type 0
  Serves s none = Unit {0}
  Serves s (some (after, answer)) = Evolves P engine storage s.node.blockchain after.node.blockchain

  mine_for-Serves :
      (miner : Text) (s : HttpServer J D) → Serves s (mine_for json P engine storage m miner s)
  unfolding mine_for
  mine_for-Serves miner s =
      elim (Option-cases (
        mine_pending_transactions P engine storage m.clock.system m.later m.fuel s.node.blockchain
          miner)) [
            | inl out ↦ rw (out, mine_for) tt
            | inr ((bc, block), mined) ↦
                rw
                  (mined, mine_for, tell_block-blockchain block (record s.node { blockchain = bc }))
                  (inr (History.mines m.clock.system m.later m.fuel miner bc block mined))
          ]

  handle_mine-Serves :
      (body path : Text) (s : HttpServer J D)
      → Serves s (handle_mine json P engine storage m body path s)
  unfolding handle_mine try_mine
  handle_mine-Serves body path s = elim (Option-cases (read_miner json body path)) [
    | inl out ↦ rw (out, handle_mine) (inl refl)
    | inr (miner, read) ↦ rw (read, handle_mine) (ground (arith, mine_for-Serves miner s))
  ]

  at_once :
      (s : HttpServer J D) (result : HttpServer J D × HttpResponse)
      → result.0.node ≡ s.node
      → Serves s (some result)
  at_once s result same = inl (ap (λ n. n.blockchain) same)

  handle_request-Serves :
      (req : HttpRequest) (s : HttpServer J D)
      → Serves s (handle_request json P engine storage m req s)
  unfolding handle_request
  handle_request-Serves req s = ground (
    arith,
    at_once s _ (handle_create_wallet-KeepsNode json P m s).0,
    at_once s _ (handle_import_wallet-KeepsNode json P m req.body s).0,
    at_once s _ (handle_wallet_login-KeepsNode json P m req.body s).0,
    at_once s _ (handle_login_challenge-KeepsNode json P m req.body s).0,
    at_once s _ (handle_verify_login-KeepsNode json P m req.body s).0,
    handle_send_transaction-Evolves req.body s,
    handle_mine-Serves req.body req.path s,
    at_once s _ (handle_get-KeepsNode json P m req s).0,
  )

  reply_to-Serves :
      (got : Received) (s : HttpServer J D) → Serves s (reply_to json P engine storage m got s)
  unfolding reply_to
  reply_to-Serves invalid_length s = inl refl
  reply_to-Serves too_large s = inl refl
  reply_to-Serves (received req) s =
      elim (Option-cases (handle_request json P engine storage m req s)) [
        | inl out ↦ rw (out, reply_to) tt
        | inr ((after, r), handled) ↦
            rw (handled, reply_to) (subst (Serves s) handled (handle_request-Serves req s))
      ]

  -- Whatever bytes come in on a connection, where it is answered, the chain of the node is as it was
  -- or one call of it was made.
  pub handle_connection-Serves :
      (incoming : ℕ → Option Text) (raw : Text) (s : HttpServer J D)
      → Serves s (handle_connection json P engine storage m incoming raw s)
  unfolding handle_connection
  handle_connection-Serves incoming raw s = elim (Option-cases (split_headers raw)) [
    | inl out ↦ rw (out, handle_connection) (inl refl)
    | inr ((headers, extra), split) ↦
        rw (split, handle_connection) (reply_to-Serves (receive incoming headers extra) s)
  ]
