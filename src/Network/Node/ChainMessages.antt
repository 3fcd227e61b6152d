-- ===== src/Network/Node/ChainMessages.antt =====
-- src/network/node.cpp: the messages that carry transactions, blocks and chains.
use personalblockchain.Prelude.{
  ℕ, Bool, false, ◌&&◌, Option, none, some, List, map, Text, text_eq, length, last?, leb, ◌==◌,
  if◌then◌else◌,
}
use personalblockchain.Prelude.Int.{ℤ, pos, negsuc}
use personalblockchain.Prelude.Map.{contains}
use personalblockchain.Platform.{Platform}
use personalblockchain.Json.{Json, read_all}
use personalblockchain.Transaction.{Transaction}
use personalblockchain.Transaction.Serial
use personalblockchain.Block.{Block}
use personalblockchain.Block.Serial as BlockSerial
use personalblockchain.Consensus.{Engine}
use personalblockchain.Blockchain.{Storage, add_transaction, accept_block, replace_chain}
use personalblockchain.Network.Message.{new_transaction, new_block, request_chain, response_chain}
use personalblockchain.Network.PeerScorer.{penalty_invalid_block}
use personalblockchain.Network.Node.{Node, Clock}
use personalblockchain.Network.Node.Peers.{
  remember, send, broadcast, broadcast_transaction, penalize_peer_by_endpoint,
  reward_peer_by_endpoint,
}

-- -5
abbrev pub penalty_invalid_tx : ℤ
penalty_invalid_tx = negsuc 4

-- The source reads the last block without a test; a chain is never empty.
abbrev pub follows : Block → List Block → Bool
follows block chain =
    block.index == length chain
    && elim (last? chain) [ none ↦ false | some tip ↦ text_eq block.previous_hash tip.hash ]

module _ {J : Type 0} {D : Type 0} (json : Json J) (P : Platform) (engine : Option Engine)
    (storage : Option (Storage D)) (clock : Clock) where
  -- What is done with a transaction that was read. The callback of the chain is the node's own
  -- broadcast.
  unfoldable pub take_transaction : ℕ → Text → J → Transaction → Node J D → Node J D
  take_transaction id key payload tx n =
      let result = add_transaction P clock.system n.blockchain tx in
      let added = record n {
        seen_tx_ids = remember 10000 tx.tx_id n.seen_tx_ids;
        blockchain = result.0;
      } in
      let told =
        if n.blockchain.on_transaction_added then broadcast_transaction json tx added else added in
      if contains tx.tx_id n.seen_tx_ids
      then n
      else if result.1
      then broadcast (record { type = new_transaction; payload = payload }) (some id)
          (reward_peer_by_endpoint key (pos 1) told)
      else penalize_peer_by_endpoint clock.steady key penalty_invalid_tx added

  unfoldable pub on_new_transaction : ℕ → Text → J → Node J D → Node J D
  on_new_transaction id key payload n = elim (Serial.from_json json P payload) [
    | none ↦ penalize_peer_by_endpoint clock.steady key penalty_invalid_tx n
    | some tx ↦ take_transaction id key payload tx n
  ]

  -- What is done with a block that was read.
  unfoldable pub take_block : ℕ → Text → J → Block → Node J D → Node J D
  take_block id key payload block n =
      let result = accept_block P engine storage clock.system n.blockchain block in
      let noted = record n { seen_block_hashes = remember 1000 block.hash n.seen_block_hashes } in
      let offered = record noted { blockchain = result.0 } in
      if contains block.hash n.seen_block_hashes
      then n
      else if follows block n.blockchain.chain
      then (if result.1
          then broadcast (record { type = new_block; payload = payload }) (some id)
              (reward_peer_by_endpoint key (pos 1) offered)
          else offered)
      else if leb (length n.blockchain.chain) block.index
      then send id (record { type = request_chain; payload = json.object }) noted
      else noted

  unfoldable pub on_new_block : ℕ → Text → J → Node J D → Node J D
  on_new_block id key payload n = elim (BlockSerial.from_json json P payload) [
    | none ↦ penalize_peer_by_endpoint clock.steady key penalty_invalid_block n
    | some block ↦ take_block id key payload block n
  ]

  unfoldable pub on_request_chain : ℕ → Node J D → Node J D
  on_request_chain id n =
      send id
        (record {
          type = response_chain;
          payload = json.array (map (BlockSerial.to_json json P) n.blockchain.chain);
        })
        n

  unfoldable pub take_chain : Text → List Block → Node J D → Node J D
  take_chain key chain n =
      let result = replace_chain P engine storage clock.system n.blockchain chain in
      let offered = record n { blockchain = result.0 } in
      if result.1 then reward_peer_by_endpoint key (pos 1) offered else offered

  unfoldable pub on_response_chain : Text → J → Node J D → Node J D
  on_response_chain key payload n =
      elim (read_all (BlockSerial.from_json json P) (json.items payload)) [
        | none ↦ penalize_peer_by_endpoint clock.steady key penalty_invalid_block n
        | some chain ↦ take_chain key chain n
      ]
