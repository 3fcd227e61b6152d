-- ===== src/Network/HttpServer/Sending.antt =====
-- src/network/http_server.cpp: `handleSendTransaction`. Its last `catch` has nothing to catch here: what is
-- read is the only thing that throws.
use personalblockchain.Prelude.{
  ◌>>=◌, ℕ, not, ◌||◌, ◌&&◌, Option, none, some, [], ◌∷◌, ◌++◌, Text, codes, is_empty, text_eq,
  length, ltb, ◌==◌, if◌then◌else◌,
}
use personalblockchain.Json.{Json}
use personalblockchain.Platform.{Platform}
use personalblockchain.Transaction.{
  Transaction, empty_transaction, compute_tx_id, current_timestamp,
}
use personalblockchain.Transaction.Serial
use personalblockchain.Blockchain.{Blockchain, add_transaction, get_balance_for_address}
use personalblockchain.Wallet.{is_valid_wallet_address, address_from_public_key}
use personalblockchain.Network.Node.{Node}
use personalblockchain.Network.Node.Peers.{broadcast_transaction}
use personalblockchain.Network.HttpServer.{HttpServer, Moment}
use personalblockchain.Network.HttpServer.Words.{trim}
use personalblockchain.Network.HttpServer.Responses.{
  HttpResponse, object_of, success, error_response, bad_request,
}
use personalblockchain.Network.HttpServer.Pending.{
  wallet_exists, pending_of, pending_balance, next_nonce,
}

-- The members that a client sends; the two addresses are trimmed.
pub record SendRequest : Type 0 where
  pub from_address : Text
  pub to_address : Text
  pub sender_public_key : Text
  pub receiver_public_key : Text
  pub payload : Text
  pub timestamp : Text
  pub tx_id : Text
  pub signature : Text
  pub amount : ℕ
  pub nonce : ℕ

-- The transaction that they make. Without a timestamp the clock is read.
unfoldable pub transaction_of : Platform → ℕ → SendRequest → Transaction
transaction_of P now r =
    let tx = record empty_transaction {
      sender_public_key = r.sender_public_key;
      receiver_public_key = r.receiver_public_key;
      from_address = r.from_address;
      to_address = r.to_address;
      amount = r.amount;
      nonce = r.nonce;
      payload = r.payload;
      timestamp = if is_empty r.timestamp then current_timestamp P now else r.timestamp;
    } in
    compute_tx_id P tx

abbrev pub with_signature : Text → Transaction → Transaction
with_signature signature tx = record tx { digital_signature = signature }

module _ {J : Type 0} (json : Json J) where
  unfoldable pub read_send_request : Text → Option SendRequest
  read_send_request body = do
    j ← json.parse body
    from_address ← json.value_text j (codes "fromAddress") []
    to_address ← json.value_text j (codes "toAddress") []
    sender_public_key ← json.value_text j (codes "senderPublicKey") []
    receiver_public_key ← json.value_text j (codes "receiverPublicKey") []
    payload ← json.value_text j (codes "payload") []
    timestamp ← json.value_text j (codes "timestamp") []
    tx_id ← json.value_text j (codes "txID") []
    older ← json.value_text j (codes "digitalSignature") []
    signature ← json.value_text j (codes "signature") older
    amount ← json.value_number j (codes "amount") 0
    nonce ← json.value_number j (codes "nonce") 0
    some (record {
      from_address = trim from_address;
      to_address = trim to_address;
      sender_public_key = sender_public_key;
      receiver_public_key = receiver_public_key;
      payload = payload;
      timestamp = timestamp;
      tx_id = tx_id;
      signature = signature;
      amount = amount;
      nonce = nonce;
    })

  unfoldable pub with_tx_aliases : J → Option J
  with_tx_aliases tx_json = do
    tx_id ← json.value_text tx_json (codes "txID") []
    sender ← json.value_text tx_json (codes "fromAddress") []
    receiver ← json.value_text tx_json (codes "toAddress") []
    some (
        json.set (codes "receiver") (json.text receiver) (
          json.set (codes "sender") (json.text sender)
            (json.set (codes "transactionId") (json.text tx_id) tx_json)))

  -- The members of a row that say where a transaction stands.
  abbrev pub pending_row : J → J
  pending_row row = json.set (codes "blockHash") (json.text []) (
      json.set (codes "blockHeight") json.null
        (json.set (codes "status") (json.text (codes "pending")) row))

  unfoldable pub sent_body : {D : Type 0} → Blockchain D → Transaction → J → J
  sent_body bc tx row =
      let t = pending_of bc tx.from_address in
      let confirmed = get_balance_for_address bc tx.from_address in
      object_of json (
        (codes "message", json.text (codes "Transaction accepted"))
        ∷ (codes "txID", json.text tx.tx_id)
        ∷ (codes "transactionId", json.text tx.tx_id)
        ∷ (codes "transaction", pending_row row)
        ∷ (
          codes "wallet",
          object_of json (
              (codes "address", json.text tx.from_address)
              ∷ (codes "confirmedBalance", json.number confirmed)
              ∷ (codes "pendingSent", json.number t.sent)
              ∷ (codes "pendingReceived", json.number t.received)
              ∷ (codes "pendingBalance", json.integer (pending_balance confirmed t))
              ∷ (codes "nextNonce", json.number (next_nonce t))
              ∷ []),
        )
        ∷ (codes "mempoolSize", json.number (length bc.mempool))
        ∷ [])

  abbrev pub invalid_transaction : Text → HttpResponse
  invalid_transaction message = bad_request json (codes "INVALID_TRANSACTION") message

  abbrev pub json_error : Text → HttpResponse
  json_error what = invalid_transaction (codes "JSON parse error: " ++ what)

-- The callback of the node hears of a transaction that the chain has taken.
unfoldable pub tell_transaction : {J D : Type 0} → Json J → Transaction → Node J D → Node J D
tell_transaction json tx n =
    if n.blockchain.on_transaction_added then broadcast_transaction json tx n else n

module _ {J : Type 0} {D : Type 0} (json : Json J) (P : Platform) (m : Moment) where
  -- The call of the chain, and the answer.
  unfoldable pub submit : Transaction → HttpServer J D → HttpServer J D × HttpResponse
  submit tx s =
      let (bc, accepted) = add_transaction P m.clock.system s.node.blockchain tx in
      if accepted
      then (
        record s { node = tell_transaction json tx (record s.node { blockchain = bc }) },
        elim (with_tx_aliases json (Serial.to_json json tx)) [
          | none ↦ json_error json m.what
          | some row ↦ success json (sent_body json bc tx row)
        ],
      )
      else (
        record s { node = record s.node { blockchain = bc } },
        invalid_transaction json (
            codes
              "Transaction rejected (invalid signature, nonce replay, insufficient balance, expired, or double-spend)"),
      )

  unfoldable pub check_tx_id : SendRequest → HttpServer J D → HttpServer J D × HttpResponse
  check_tx_id r s =
      let tx = transaction_of P m.clock.system r in
      if not (is_empty r.tx_id) && not (text_eq r.tx_id tx.tx_id)
      then (s, invalid_transaction json (codes "txID mismatch"))
      else submit (with_signature r.signature tx) s

  -- The tests, in their order, on a request that was read.
  unfoldable pub take_send_request : SendRequest → HttpServer J D → HttpServer J D × HttpResponse
  take_send_request r s =
      if is_empty r.from_address
        || is_empty r.to_address
        || is_empty r.sender_public_key
        || is_empty r.signature
      then (
        s,
        invalid_transaction json
            (codes "Missing required fields: fromAddress,toAddress,senderPublicKey,signature"),
      )
      else if r.amount == 0
      then (s, invalid_transaction json (codes "amount must be > 0"))
      else if ltb 2048 (length r.payload)
      then (
        s,
        error_response json 413 (codes "Payload Too Large") (codes "INVALID_TRANSACTION")
            (codes "payload too large"),
      )
      else if not (is_valid_wallet_address r.from_address)
          || not (text_eq r.from_address (address_from_public_key P r.sender_public_key))
      then (
        s,
        bad_request json (codes "INVALID_ADDRESS")
            (codes "Sender address is invalid or does not match sender public key"),
      )
      else if not (is_valid_wallet_address r.to_address)
      then (
        s,
        bad_request json (codes "INVALID_ADDRESS") (codes "Receiver address format is invalid"),
      )
      else if not (wallet_exists s r.to_address)
      then (
        s,
        bad_request json (codes "RECEIVER_NOT_FOUND") (codes "Receiver wallet does not exist"),
      )
      else if ltb (get_balance_for_address s.node.blockchain r.from_address) r.amount
      then (s, bad_request json (codes "INSUFFICIENT_BALANCE") (codes "Insufficient balance"))
      else check_tx_id r s

  unfoldable pub handle_send_transaction : Text → HttpServer J D → HttpServer J D × HttpResponse
  handle_send_transaction body s = elim (read_send_request json body) [
    | none ↦ (s, json_error json m.what)
    | some r ↦ take_send_request r s
  ]
