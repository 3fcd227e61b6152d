-- ===== src/Network/Node/Sync.antt =====
-- A block that one node mines and another one receives (src/network/node.cpp, src/core/blockchain.cpp).
use personalblockchain.Prelude.{ℕ, ◌≤◌, ◌≡◌, refl, true, false, Option, some, Text, last?, arith}
use personalblockchain.Prelude.Int.{pos}
use personalblockchain.Prelude.Map.{contains}
use personalblockchain.Platform.{Platform}
use personalblockchain.Json.{Json, IsLawful}
use personalblockchain.Block.{Block}
use personalblockchain.Block.Serial as BlockSerial
use personalblockchain.Block.Serial.{AreComplete, from_json-to_json_block}
use personalblockchain.Blockchain.{Blockchain, Storage, accept_block}
use personalblockchain.Network.Message.{new_block}
use personalblockchain.Network.Node.{Node, Clock}
use personalblockchain.Network.Node.Peers.{remember, reward_peer_by_endpoint}
use personalblockchain.Network.Node.ChainMessages.{follows, take_block, on_new_block}
use personalblockchain.Network.Node.Untouched.{broadcast-blockchain}
use personalblockchain.Consensus.{Engine}
use personalblockchain.Consensus.Adjuster.{Doubles, DifficultyAdjuster, validate_block_timestamp}
use personalblockchain.Consensus.Pow.{pow_engine}
use personalblockchain.Blockchain.{validate_chain_against_consensus, mine_pending_transactions}
use personalblockchain.Blockchain.Invariant.{IsConsistent}
use personalblockchain.Blockchain.Sync.{accept_block-mined}

module _ {J : Type 0} {D : Type 0} (json : Json J) (P : Platform) (engine : Option Engine)
    (storage : Option (Storage D)) (clock : Clock) where
  accept_block-follows :
      (bc : Blockchain D) (now : ℕ) (block : Block)
      → (accept_block P engine storage now bc block).1 ≡ true
      → follows block bc.chain ≡ true
  unfolding accept_block
  accept_block-follows bc now block h = ground arith

  take_block-accepted :
      (id : ℕ) (key : Text) (payload : J) (block : Block) (n : Node J D)
      → contains block.hash n.seen_block_hashes ≡ false
      → (accept_block P engine storage clock.system n.blockchain block).1 ≡ true
      → (take_block json P engine storage clock id key payload block n).blockchain
        ≡ (accept_block P engine storage clock.system n.blockchain block).0
  unfolding take_block reward_peer_by_endpoint
  take_block-accepted id key payload block n new accepted =
      let next = accept_block-follows n.blockchain clock.system block accepted in
      let offered : Node J D = record n {
        seen_block_hashes = remember 1000 block.hash n.seen_block_hashes;
        blockchain = (accept_block P engine storage clock.system n.blockchain block).0;
      } in
      rw
        (
          new,
          next,
          accepted,
          broadcast-blockchain (record { type = new_block; payload = payload }) (some id)
              (reward_peer_by_endpoint key (pos 1) offered),
        )
        refl

module _ {J D E F : Type 0} (json : Json J) (P : Platform) (doubles : Doubles F)
    (a : DifficultyAdjuster F) (storage : Option (Storage D))
    (peer_storage : Option (Storage E)) where
  -- A block that one consistent node mines at a difficulty from 1 to 64 and sends to a consistent
  -- peer with the same chain gives the peer the miner's chain and ledger, if the JSON library keeps
  -- its promises, the transactions of the block name their addresses and an amount, and the peer has
  -- not seen the block before, finds its own chain in order by its clock, and finds the timestamp of
  -- the block in bounds.
  pub on_new_block-mined :
      (clock : Clock) (now later fuel id : ℕ) (key : Text) (bc after : Blockchain D)
      (peer : Node J E) (block : Block) (miner : Text)
      → IsLawful json
      → AreComplete block.transactions
      → contains block.hash peer.seen_block_hashes ≡ false
      → IsConsistent P bc
      → IsConsistent P peer.blockchain
      → peer.blockchain.chain ≡ bc.chain
      → mine_pending_transactions P (some (pow_engine P doubles a)) storage now later fuel bc miner
        ≡ some (after, block)
      → validate_chain_against_consensus P
          (some (pow_engine P doubles a))
          clock.system
          peer.blockchain.chain
        ≡ true
      → 1 ≤ block.difficulty
      → block.difficulty ≤ 64
      → ((tip : Block)
          → last? peer.blockchain.chain ≡ some tip
          → validate_block_timestamp P clock.system block tip ≡ true)
      → let result =
          on_new_block json P
            (some (pow_engine P doubles a))
            peer_storage
            clock
            id
            key
            (BlockSerial.to_json json P block)
            peer in
        (result.blockchain.chain ≡ after.chain)
        × (result.blockchain.state_manager ≡ after.state_manager)
  unfolding on_new_block
  on_new_block-mined clock now later fuel id key bc after peer block miner laws complete new v w
        same mined valid low high timely =
      let (accepted, chains, ledgers) =
        accept_block-mined P doubles a storage peer_storage now later fuel clock.system bc after
          peer.blockchain block miner v w same mined valid low high timely in
      let read = from_json-to_json_block json P block laws complete (omega arith) in
      let taken =
        take_block-accepted json P (some (pow_engine P doubles a)) peer_storage clock id key
          (BlockSerial.to_json json P block) block peer new accepted in
      rw (read, on_new_block, taken) (chains, ledgers)
