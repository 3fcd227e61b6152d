-- ===== src/Network/Node/Safety.antt =====
-- What one message can do to the chain of a node (src/network/node.cpp).
use personalblockchain.Prelude.{
  ℕ, ◌%◌, ◌^◌, ◌≡◌, refl, ◌∙◌, subst, ◌⊎◌, inl, inr, not, ◌&&◌, Option, some, List, [], Text, leb,
  ltb, length, is_empty, codes, arith, Bool-cases, Option-cases,
}
use personalblockchain.Prelude.Int.{pos}
use personalblockchain.Prelude.Map.{Set, contains}
use personalblockchain.Platform.{Platform}
use personalblockchain.Json.{Json, read_all}
use personalblockchain.Transaction.{Transaction}
use personalblockchain.Transaction.Serial
use personalblockchain.Block.{Block}
use personalblockchain.Block.Serial as BlockSerial
use personalblockchain.Consensus.{Engine}
use personalblockchain.Blockchain.{
  Blockchain, Storage, add_transaction, accept_block, replace_chain,
}
use personalblockchain.Blockchain.History as History
use personalblockchain.Network.Message.{
  Message, MessageType, new_transaction, new_block, request_chain, response_chain, ping, pong,
  peer_list, request_peers, response_peers, node_announce, register_node, request_bootstrap,
  response_bootstrap, unknown,
}
use personalblockchain.Network.PeerScorer.{mark_seen, penalty_invalid_block}
use personalblockchain.Network.Node.{Node, Outcome, returns, throws, deadlocks, Clock}
use personalblockchain.Network.Node.Peers.{send, remember, reward_peer_by_endpoint}
use personalblockchain.Network.Node.Dedup.{deduplicate}
use personalblockchain.Network.Node.Learning.{
  learn, learn_address, on_node_announce, send_topology, on_register_node, on_request_peers,
}
use personalblockchain.Network.Node.ChainMessages.{
  penalty_invalid_tx, follows, take_transaction, take_block, take_chain, on_new_transaction,
  on_new_block, on_request_chain, on_response_chain,
}
use personalblockchain.Network.Node.Handlers.{or_throws, dispatch, process}
use personalblockchain.Network.Node.Untouched.{
  broadcast-blockchain, penalize-blockchain, told-blockchain, handle_received_peers-blockchain,
}

module _ {D : Type 0} (P : Platform) (engine : Option Engine) (storage : Option (Storage D)) where
  -- The chain is as it was, or one call of it was made.
  abbrev pub Evolves : Blockchain D → Blockchain D → Type 0
  Evolves bc after = (after ≡ bc) ⊎ History.Step P engine storage bc after

  -- The call ends, and where it returns, the chain has evolved.
  abbrev pub Keeps : {J : Type 0} → Blockchain D → Outcome (Node J D) → Type 0
  Keeps bc (returns after) = Evolves bc after.blockchain
  Keeps bc throws = Unit {0}
  Keeps bc deadlocks = ⊥

module _ {J : Type 0} {D : Type 0} (json : Json J) (P : Platform) (engine : Option Engine)
    (storage : Option (Storage D)) (shuffle : List Text → List Text) (listing : Set → List Text)
    (clock : Clock) where
  take_transaction-Evolves :
      (id : ℕ) (key : Text) (payload : J) (tx : Transaction) (n : Node J D)
      → Evolves P engine storage n.blockchain
          (take_transaction json P engine storage clock id key payload tx n).blockchain
  unfolding take_transaction
  take_transaction-Evolves id key payload tx n =
      let added = record n {
        seen_tx_ids = remember 10000 tx.tx_id n.seen_tx_ids;
        blockchain = (add_transaction P clock.system n.blockchain tx).0;
      } in
      let step : Evolves P engine storage n.blockchain
          (add_transaction P clock.system n.blockchain tx).0 =
        inr (History.adds clock.system tx _ refl) in
      elim (Bool-cases (contains tx.tx_id n.seen_tx_ids)) [
        | inl seen ↦ rw seen (inl refl)
        | inr new ↦ elim (Bool-cases (add_transaction P clock.system n.blockchain tx).1) [
          | inr refused ↦
              rw (new, refused, penalize-blockchain clock.steady key penalty_invalid_tx added) step
          | inl accepted ↦
              rw
                (
                  new,
                  accepted,
                  told-blockchain json tx (record { type = new_transaction; payload = payload }) id
                      key added n.blockchain.on_transaction_added,
                )
                step
        ]
      ]

  take_block-Evolves :
      (id : ℕ) (key : Text) (payload : J) (block : Block) (n : Node J D)
      → Evolves P engine storage n.blockchain
          (take_block json P engine storage clock id key payload block n).blockchain
  unfolding take_block send reward_peer_by_endpoint
  take_block-Evolves id key payload block n =
      let result = accept_block P engine storage clock.system n.blockchain block in
      let offered = record n {
        seen_block_hashes = remember 1000 block.hash n.seen_block_hashes;
        blockchain = result.0;
      } in
      let step : Evolves P engine storage n.blockchain result.0 =
        inr (History.accepts clock.system block _ refl) in
      elim (Bool-cases (contains block.hash n.seen_block_hashes)) [
        | inl seen ↦ rw seen (inl refl)
        | inr new ↦ elim (Bool-cases (follows block n.blockchain.chain)) [
          | inl next ↦ elim (Bool-cases result.1) [
            | inl accepted ↦
                rw
                  (
                    new,
                    next,
                    accepted,
                    broadcast-blockchain (record { type = new_block; payload = payload }) (some id)
                        (reward_peer_by_endpoint key (pos 1) offered),
                  )
                  step
            | inr refused ↦ rw (new, next, refused) step
          ]
          | inr other ↦ elim (Bool-cases (leb (length n.blockchain.chain) block.index)) [
            | inl ahead ↦ rw (new, other, ahead) (inl refl)
            | inr behind ↦ rw (new, other, behind) (inl refl)
          ]
        ]
      ]

  take_chain-Evolves :
      (key : Text) (chain : List Block) (n : Node J D)
      → Evolves P engine storage n.blockchain
          (take_chain json P engine storage clock key chain n).blockchain
  unfolding take_chain reward_peer_by_endpoint
  take_chain-Evolves key chain n =
      let result = replace_chain P engine storage clock.system n.blockchain chain in
      let step : Evolves P engine storage n.blockchain result.0 =
        inr (History.replaces clock.system chain _ refl) in
      elim (Bool-cases result.1) [ inl replaced ↦ rw replaced step | inr refused ↦ rw refused step ]

  learn-blockchain : (endpoint : Text) (n : Node J D) → (learn endpoint n).blockchain ≡ n.blockchain
  unfolding learn
  learn-blockchain endpoint n = ground arith

  learn_address-blockchain :
      (id : ℕ) (ip : Text) (port : ℕ) (n : Node J D)
      → (learn_address clock id ip port n).blockchain ≡ n.blockchain
  unfolding learn_address
  learn_address-blockchain id ip port n = elim (Bool-cases (not (is_empty ip) && ltb 0 port)) [
    | inl named ↦ rw named refl
    | inr not_named ↦ rw not_named refl
  ]

  on_node_announce-Keeps :
      (id : ℕ) (payload : J) (n : Node J D)
      → Keeps P engine storage n.blockchain (or_throws (on_node_announce json clock id payload n))
  unfolding on_node_announce
  on_node_announce-Keeps id payload n =
      elim (Option-cases (json.value_text payload (codes "publicIp") [])) [
        | inl out ↦ rw (out, on_node_announce) tt
        | inr (ip, read_ip) ↦ elim (Option-cases (json.value_number payload (codes "port") 0)) [
          | inl out ↦ rw (read_ip, on_node_announce, out) tt
          | inr (port, read_port) ↦
              elim (Option-cases (json.value_text payload (codes "endpoint") [])) [
                | inl out ↦ rw (read_ip, on_node_announce, read_port, out) tt
                | inr (endpoint, read) ↦
                    rw (read_ip, on_node_announce, read_port, read)
                      (inl (
                        learn-blockchain endpoint (learn_address clock id ip (port % 2 ^ 16) n)
                        ∙ learn_address-blockchain id ip (port % 2 ^ 16) n))
              ]
        ]
      ]

  on_register_node-Keeps :
      (id : ℕ) (payload : J) (n : Node J D)
      → Keeps P engine storage n.blockchain (or_throws (on_register_node json listing id payload n))
  unfolding on_register_node send_topology send
  on_register_node-Keeps id payload n =
      elim (Option-cases (json.value_text payload (codes "endpoint") [])) [
        | inl out ↦ rw (out, on_register_node) tt
        | inr (endpoint, read) ↦ rw (read, on_register_node) (inl (learn-blockchain endpoint n))
      ]

  on_new_transaction-Evolves :
      (id : ℕ) (key : Text) (payload : J) (n : Node J D)
      → Evolves P engine storage n.blockchain
          (on_new_transaction json P engine storage clock id key payload n).blockchain
  unfolding on_new_transaction
  on_new_transaction-Evolves id key payload n =
      elim (Option-cases (Serial.from_json json P payload)) [
        | inl out ↦
            rw (out, on_new_transaction)
              (inl (penalize-blockchain clock.steady key penalty_invalid_tx n))
        | inr (tx, read) ↦
            rw (read, on_new_transaction) (take_transaction-Evolves id key payload tx n)
      ]

  on_new_block-Evolves :
      (id : ℕ) (key : Text) (payload : J) (n : Node J D)
      → Evolves P engine storage n.blockchain
          (on_new_block json P engine storage clock id key payload n).blockchain
  unfolding on_new_block
  on_new_block-Evolves id key payload n =
      elim (Option-cases (BlockSerial.from_json json P payload)) [
        | inl out ↦
            rw (out, on_new_block)
              (inl (penalize-blockchain clock.steady key penalty_invalid_block n))
        | inr (block, read) ↦ rw (read, on_new_block) (take_block-Evolves id key payload block n)
      ]

  on_response_chain-Evolves :
      (key : Text) (payload : J) (n : Node J D)
      → Evolves P engine storage n.blockchain
          (on_response_chain json P engine storage clock key payload n).blockchain
  unfolding on_response_chain
  on_response_chain-Evolves key payload n =
      elim (Option-cases (read_all (BlockSerial.from_json json P) (json.items payload))) [
        | inl out ↦
            rw (out, on_response_chain)
              (inl (penalize-blockchain clock.steady key penalty_invalid_block n))
        | inr (chain, read) ↦ rw (read, on_response_chain) (take_chain-Evolves key chain n)
      ]

  dispatch-Keeps :
      (id : ℕ) (key : Text) (type : MessageType) (payload : J) (n : Node J D)
      → Keeps P engine storage n.blockchain (
          dispatch json P engine storage shuffle listing clock id key
            (record { type = type; payload = payload })
            n)
  unfolding dispatch send_topology send on_request_chain on_request_peers
  dispatch-Keeps id key node_announce payload n = on_node_announce-Keeps id payload n
  dispatch-Keeps id key register_node payload n = on_register_node-Keeps id payload n
  dispatch-Keeps id key request_bootstrap payload n = inl refl
  dispatch-Keeps id key response_bootstrap payload n =
      inl (handle_received_peers-blockchain json shuffle clock.steady payload n)
  dispatch-Keeps id key new_transaction payload n = on_new_transaction-Evolves id key payload n
  dispatch-Keeps id key new_block payload n = on_new_block-Evolves id key payload n
  dispatch-Keeps id key request_chain payload n = inl refl
  dispatch-Keeps id key response_chain payload n = on_response_chain-Evolves key payload n
  dispatch-Keeps id key ping payload n = inl refl
  dispatch-Keeps id key pong payload n = inl refl
  dispatch-Keeps id key request_peers payload n = inl refl
  dispatch-Keeps id key response_peers payload n =
      inl (handle_received_peers-blockchain json shuffle clock.steady payload n)
  dispatch-Keeps id key peer_list payload n =
      inl (handle_received_peers-blockchain json shuffle clock.steady payload n)
  dispatch-Keeps id key unknown payload n = inl refl

  deduplicate-blockchain :
      (msg : Message J) (n : Node J D)
      → (deduplicate json P clock msg n).0.blockchain ≡ n.blockchain
  unfolding deduplicate
  deduplicate-blockchain msg n = ground arith

  pub process-Keeps :
      (id : ℕ) (key : Text) (msg : Message J) (n : Node J D)
      → Keeps P engine storage n.blockchain
          (process json P engine storage shuffle listing clock id key msg n)
  unfolding process
  process-Keeps id key msg n =
      let noted = (deduplicate json P clock msg n).0 in
      let same = deduplicate-blockchain msg n in
      let seen = record noted { peer_scorer = mark_seen clock.system key noted.peer_scorer } in
      elim (Bool-cases (deduplicate json P clock msg n).1) [
        | inl new ↦ rw new (
            subst
              (λ bc.
                Keeps P engine storage bc
                  (dispatch json P engine storage shuffle listing clock id key msg seen))
              same (dispatch-Keeps id key msg.type msg.payload seen))
        | inr repeated ↦ rw repeated (inl same)
      ]
