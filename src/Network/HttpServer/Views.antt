-- ===== src/Network/HttpServer/Views.antt =====
-- src/network/http_server.cpp: the routes that answer a GET.
use personalblockchain.Prelude.{
  ◌>>=◌, ℕ, not, ◌&&◌, Bool, Option, none, some, List, [], ◌∷◌, ◌++◌, Text, codes, text_eq, length,
  map, keep, if◌then◌else◌,
}
use personalblockchain.Prelude.Map.{Map, Set, lookup, insert, add, contains}
use personalblockchain.Json.{Json, read_all}
use personalblockchain.Platform.{Platform}
use personalblockchain.Transaction.{Transaction, is_coinbase}
use personalblockchain.Transaction.Serial
use personalblockchain.Block.{Block}
use personalblockchain.Block.Serial as BlockSerial
use personalblockchain.Blockchain.{Blockchain, get_chain_length, get_balance_for_address}
use personalblockchain.Wallet.{is_valid_wallet_address}
use personalblockchain.Network.PeerScorer.{PeerInfo}
use personalblockchain.Network.Node.Peers.{get_peer_list}
use personalblockchain.Network.Node.Stats.{get_network_stats}
use personalblockchain.Network.HttpServer.{HttpServer, Moment}
use personalblockchain.Network.HttpServer.Responses.{
  HttpResponse, object_of, success, internal_error,
}
use personalblockchain.Network.HttpServer.Wallets.{know, invalid_address}
use personalblockchain.Network.HttpServer.Pending.{
  transactions_of, pending_of, pending_balance, next_nonce,
}
use personalblockchain.Network.HttpServer.Sending.{with_tx_aliases, pending_row}

-- The identifiers of the transactions of a chain, as a set.
abbrev add_ids : List Transaction → Set → Set
add_ids [] ids = ids
add_ids (tx ∷ txs) ids = add_ids txs (add tx.tx_id ids)

unfoldable pub confirmed_ids : List Block → Set → Set
confirmed_ids [] ids = ids
confirmed_ids (b ∷ bs) ids = confirmed_ids bs (add_ids b.transactions ids)

-- The transactions of the mempool that are not among these.
unfoldable pub unconfirmed : Set → List Transaction → List Transaction
unconfirmed ids mempool = keep (λ tx. not (contains tx.tx_id ids)) mempool

-- `txBlockMeta`: the height and the hash of the last block that holds a transaction.
abbrev note_block : Block → List Transaction → Map (ℕ × Text) → Map (ℕ × Text)
note_block b [] meta = meta
note_block b (tx ∷ txs) meta = note_block b txs (insert tx.tx_id (b.index, b.hash) meta)

unfoldable pub block_meta : List Block → Map (ℕ × Text) → Map (ℕ × Text)
block_meta [] meta = meta
block_meta (b ∷ bs) meta = block_meta bs (note_block b b.transactions meta)

abbrev is_party : Text → Transaction → Bool
is_party address tx =
    not (not (text_eq tx.from_address address) && not (text_eq tx.to_address address))

abbrev direction : Text → Transaction → Text
direction address tx =
    if is_coinbase tx
    then codes "reward"
    else if text_eq tx.from_address address
    then codes "sent"
    else codes "received"

module _ {J : Type 0} (json : Json J) where
  abbrev row_of : Transaction → Option J
  row_of tx = with_tx_aliases json (Serial.to_json json tx)

  abbrev place : ℕ → Text → J → J
  place height hash row =
      json.set (codes "blockHash") (json.text hash)
        (json.set (codes "blockHeight") (json.number height) row)

  abbrev status : Text → J → J
  status text row = json.set (codes "status") (json.text text) row

  unfoldable pub confirmed_row : Block → Transaction → Option J
  confirmed_row b tx = do
    row ← row_of tx
    some (place b.index b.hash (status (codes "confirmed") row))

  unfoldable pub confirmed_rows : List Block → Option (List J)
  confirmed_rows [] = some []
  confirmed_rows (b ∷ bs) = do
    rows ← read_all (confirmed_row b) b.transactions
    rest ← confirmed_rows bs
    some (rows ++ rest)

  abbrev pending_view : Transaction → Option J
  pending_view tx = do row ← row_of tx; some (pending_row json row)

  abbrev listing : List J → List J → List (Text × J)
  listing confirmed pending =
      (codes "count", json.number (length (confirmed ++ pending)))
      ∷ (codes "transactions", json.array (confirmed ++ pending))
      ∷ (codes "confirmedTransactions", json.array confirmed)
      ∷ (codes "pendingTransactions", json.array pending)
      ∷ []

  unfoldable pub transactions_json : {D : Type 0} → Blockchain D → Option J
  transactions_json bc = do
    confirmed ← confirmed_rows bc.chain
    pending ← read_all pending_view (unconfirmed (confirmed_ids bc.chain []) bc.mempool)
    some (object_of json (listing confirmed pending))

  unfoldable pub mempool_json : {D : Type 0} → Blockchain D → Option J
  mempool_json bc = do
    rows ← read_all (λ tx. do row ← row_of tx; some (status (codes "pending") row)) bc.mempool
    some (
        object_of json (
          (codes "count", json.number (length bc.mempool))
          ∷ (codes "transactions", json.array rows)
          ∷ []))

  unfoldable pub balance_json : {D : Type 0} → Blockchain D → Text → J
  balance_json bc address =
      let t = pending_of bc address in
      let confirmed = get_balance_for_address bc address in
      object_of json (
        (codes "address", json.text address)
        ∷ (codes "balance", json.number confirmed)
        ∷ (codes "confirmedBalance", json.number confirmed)
        ∷ (codes "pendingBalance", json.integer (pending_balance confirmed t))
        ∷ (codes "pendingSent", json.number t.sent)
        ∷ (codes "pendingReceived", json.number t.received)
        ∷ (codes "nextNonce", json.number (next_nonce t))
        ∷ [])

  -- A row of the history of an address, and where the chain holds it.
  unfoldable pub history_row : Text → Map (ℕ × Text) → Transaction → Option J
  history_row address meta tx = do
    row ← row_of tx
    let directed = json.set (codes "direction") (json.text (direction address tx)) row
    let confirmed = status (codes "confirmed") directed
    some (elim (lookup tx.tx_id meta) [
      | some (height, hash) ↦ place height hash confirmed
      | none ↦
          json.set (codes "blockHash") (json.text [])
            (json.set (codes "blockHeight") json.null confirmed)
    ])

  unfoldable pub pending_history_row : Text → Transaction → Option J
  pending_history_row address tx = do
    row ← row_of tx
    some (pending_row json (json.set (codes "direction") (json.text (direction address tx)) row))

  unfoldable pub history_json : {D : Type 0} → Blockchain D → Text → Option J
  history_json bc address = do
    let txs = transactions_of bc address
    confirmed ← read_all (history_row address (block_meta bc.chain [])) txs
    pending ←
        read_all (pending_history_row address)
          (unconfirmed (add_ids txs []) (keep (is_party address) bc.mempool))
    some (object_of json ((codes "address", json.text address) ∷ listing confirmed pending))

  unfoldable pub chain_to_json : {D : Type 0} → Platform → Blockchain D → J
  chain_to_json P bc = json.array (map (BlockSerial.to_json json P) bc.chain)

  unfoldable pub peer_score_json : Text × PeerInfo → J
  peer_score_json (key, info) = object_of json (
      (codes "endpoint", json.text key)
      ∷ (codes "host", json.text info.host)
      ∷ (codes "port", json.number info.port)
      ∷ (codes "score", json.integer info.score)
      ∷ (codes "banned", json.boolean info.banned)
      ∷ (codes "invalidBlockCount", json.number info.invalid_block_count)
      ∷ [])

  -- The end of a handler that has built its answer, or thrown.
  abbrev pub answer : Text → Option J → HttpResponse
  answer what none = internal_error json what
  answer what (some j) = success json j

module _ {J : Type 0} {D : Type 0} (json : Json J) where
  unfoldable pub handle_get_chain : Platform → HttpServer J D → HttpResponse
  handle_get_chain P s = success json (
      object_of json (
        (codes "length", json.number (get_chain_length s.node.blockchain))
        ∷ (codes "chain", chain_to_json json P s.node.blockchain)
        ∷ []))

  unfoldable pub handle_get_transactions : Text → HttpServer J D → HttpResponse
  handle_get_transactions what s = answer json what (transactions_json json s.node.blockchain)

  unfoldable pub handle_get_mempool : Text → HttpServer J D → HttpResponse
  handle_get_mempool what s = answer json what (mempool_json json s.node.blockchain)

  -- An address that is asked for is known from then on.
  unfoldable pub handle_get_wallet_balance : Text → HttpServer J D → HttpServer J D × HttpResponse
  handle_get_wallet_balance address s =
      if not (is_valid_wallet_address address)
      then (s, invalid_address json)
      else (know address s, success json (balance_json json s.node.blockchain address))

  unfoldable pub handle_get_wallet_transactions : Text → Text → HttpServer J D → HttpResponse
  handle_get_wallet_transactions what address s =
      if not (is_valid_wallet_address address)
      then invalid_address json
      else answer json what (history_json json s.node.blockchain address)

  unfoldable pub handle_get_peers : HttpServer J D → HttpResponse
  handle_get_peers s =
      let peers = get_peer_list s.node in
      success json (
        object_of json (
          (codes "count", json.number (length peers))
          ∷ (codes "peers", json.array (map json.text peers))
          ∷ []))

  unfoldable pub handle_health : HttpServer J D → HttpResponse
  handle_health s = success json (
      object_of json (
        (codes "status", json.text (codes "ok"))
        ∷ (codes "chainLength", json.number (get_chain_length s.node.blockchain))
        ∷ (codes "chainUpdateVersion", json.number s.node.blockchain.chain_update_version)
        ∷ (codes "difficulty", json.number s.node.blockchain.difficulty)
        ∷ (codes "peerCount", json.number (length (get_peer_list s.node)))
        ∷ (codes "mempoolSize", json.number (length s.node.blockchain.mempool))
        ∷ []))

  unfoldable pub handle_get_peer_scores : HttpServer J D → HttpResponse
  handle_get_peer_scores s = success json (
      object_of json (
        (codes "count", json.number (length s.node.peer_scorer))
        ∷ (codes "peers", json.array (map (peer_score_json json) s.node.peer_scorer))
        ∷ []))

unfoldable pub handle_network_stats :
    {J D : Type 0} → Json J → Moment → HttpServer J D → HttpResponse
handle_network_stats json m s = success json (get_network_stats json m.clock m.metrics s.node)
