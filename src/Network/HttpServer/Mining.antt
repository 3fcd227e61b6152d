-- ===== src/Network/HttpServer/Mining.antt =====
-- src/network/http_server.cpp: `handleMine`.
use personalblockchain.Prelude.{
  ◌>>=◌, ℕ, ◌-◌, ◌/◌, not, ◌&&◌, Option, none, some, [], ◌∷◌, Text, codes, is_empty, text_eq,
  length, ltb, ◌==◌, if◌then◌else◌,
}
use personalblockchain.Prelude.Map.{lookup, insert}
use personalblockchain.Json.{Json}
use personalblockchain.Platform.{Platform}
use personalblockchain.Block.{Block}
use personalblockchain.Block.Serial as BlockSerial
use personalblockchain.Consensus.{Engine}
use personalblockchain.Blockchain.{
  Blockchain, Storage, mine_pending_transactions, get_balance_for_address,
}
use personalblockchain.Wallet.{is_valid_wallet_address}
use personalblockchain.Network.Node.{Node}
use personalblockchain.Network.Node.Peers.{broadcast_block}
use personalblockchain.Network.HttpServer.{HttpServer, Moment}
use personalblockchain.Network.HttpServer.Words.{query_param}
use personalblockchain.Network.HttpServer.Responses.{
  HttpResponse, response, object_of, success, error_response, bad_request,
}
use personalblockchain.Network.HttpServer.Wallets.{know}

abbrev mining_cooldown_seconds : ℕ
mining_cooldown_seconds = 30

-- The seconds that are left, where there are any. The steady clock never goes back.
unfoldable pub cooldown : {J D : Type 0} → ℕ → HttpServer J D → Text → Option ℕ
cooldown now s miner_address = elim (lookup miner_address s.last_mine_at) [
  | none ↦ none
  | some at ↦
      let elapsed = (now - at) / 1_000_000_000 in
      if ltb elapsed mining_cooldown_seconds then some (mining_cooldown_seconds - elapsed) else none
]

abbrev default_miner : Text → Text
default_miner address = if is_empty address then codes "GENESIS" else address

module _ {J : Type 0} (json : Json J) where
  read_named : Text → Option Text
  read_named body = do
    j ← json.parse body
    address ← json.value_text j (codes "minerAddress") []
    some (default_miner address)

  -- A body that begins like an object goes before the query; nothing where it is no such JSON.
  unfoldable pub read_miner : Text → Text → Option Text
  unfolding read_named
  read_miner [] path = some (default_miner (query_param path (codes "minerAddress")))
  read_miner (c ∷ rest) path =
      if c == b'{'
      then read_named (c ∷ rest)
      else some (default_miner (query_param path (codes "minerAddress")))

  abbrev pub invalid_miner : HttpResponse
  invalid_miner =
      bad_request json (codes "INVALID_ADDRESS") (codes "Miner address format is invalid")

  abbrev pub cooldown_active : ℕ → HttpResponse
  cooldown_active remaining = response 429 (codes "Too Many Requests") (
      json.dump none (
        object_of json (
          (codes "error", json.text (codes "Mining cooldown active"))
          ∷ (codes "errorCode", json.text (codes "MINING_COOLDOWN_ACTIVE"))
          ∷ (codes "message", json.text (codes "Mining cooldown active"))
          ∷ (codes "cooldownRemainingSeconds", json.number remaining)
          ∷ [])))

  unfoldable pub mined_body : {D : Type 0} → Platform → ℕ → Blockchain D → Block → Text → J
  mined_body P pending_count bc block miner_address = object_of json (
      (codes "message", json.text (codes "Block mined successfully"))
      ∷ (codes "block", BlockSerial.to_json json P block)
      ∷ (codes "minerAddress", json.text miner_address)
      ∷ (codes "reward", json.number 50)
      ∷ (codes "notification", json.text (codes "50 PCN mined successfully"))
      ∷ (codes "cooldownSeconds", json.number mining_cooldown_seconds)
      ∷ (codes "mempoolTransactionsMined", json.number pending_count)
      ∷ (codes "rewardOnlyBlock", json.boolean (pending_count == 0))
      ∷ (codes "newBalance", json.number (get_balance_for_address bc miner_address))
      ∷ [])

-- The callback of the node hears of a block that was mined here.
unfoldable pub tell_block : {J D : Type 0} → Json J → Platform → Block → Node J D → Node J D
tell_block json P block n =
    if n.blockchain.on_block_added then broadcast_block json P block n else n

module _ {J : Type 0} {D : Type 0} (json : Json J) (P : Platform) (engine : Option Engine)
    (storage : Option (Storage D)) (m : Moment) where
  -- Nothing where the search for a nonce does not end.
  unfoldable pub mine_for : Text → HttpServer J D → Option (HttpServer J D × HttpResponse)
  mine_for miner_address s = do
    (bc, block) ←
        mine_pending_transactions P engine storage m.clock.system m.later m.fuel s.node.blockchain
          miner_address
    some (
      know miner_address (record s {
        node = tell_block json P block (record s.node { blockchain = bc });
        last_mine_at = insert miner_address m.sealed s.last_mine_at;
      }),
      success json (mined_body json P (length s.node.blockchain.mempool) bc block miner_address),
    )

  -- The tests on an address that was read.
  unfoldable pub try_mine : Text → HttpServer J D → Option (HttpServer J D × HttpResponse)
  try_mine miner_address s =
      let mined = mine_for miner_address s in
      if not (text_eq miner_address (codes "GENESIS"))
        && not (is_valid_wallet_address miner_address)
      then some (s, invalid_miner json)
      else elim (cooldown m.clock.steady s miner_address) [
        | some remaining ↦ some (s, cooldown_active json remaining)
        | none ↦ mined
      ]

  unfoldable pub handle_mine : Text → Text → HttpServer J D → Option (HttpServer J D × HttpResponse)
  handle_mine body path s = elim (read_miner json body path) [
    | none ↦
        some
          (s, error_response json 500 (codes "Internal Server Error") (codes "MINE_FAILED") m.what)
    | some miner_address ↦ try_mine miner_address s
  ]
