-- ===== src/Network/HttpServer/Boot.antt =====
-- A node from its constructors on (src/main.cpp, src/core/blockchain.cpp, src/network/node.cpp and
-- src/network/http_server.cpp).
use personalblockchain.Prelude.{
  ℕ, ◌≡◌, sym, subst, inl, inr, Bool, true, Option, some, List, Text, Option-cases, arith,
}
use personalblockchain.Prelude.Map.{Set}
use personalblockchain.Platform.{Platform}
use personalblockchain.Json.{Json}
use personalblockchain.Consensus.{Engine}
use personalblockchain.Consensus.Rules.{Seals}
use personalblockchain.Blockchain.{
  Blockchain, Storage, construct, set_on_block_added, set_on_transaction_added,
}
use personalblockchain.Blockchain.Invariant.{IsConsistent}
use personalblockchain.Blockchain.History as History
use personalblockchain.Network.NodeIdentity.{load_or_create}
use personalblockchain.Network.Node.{Peer, NodeOptions, Node}
use personalblockchain.Network.Node.Starting.{new_node, construct_node}
use personalblockchain.Network.HttpServer.{HttpServer, new_http_server}
use personalblockchain.Network.HttpServer.Session.{Session, http_Session-Reach}

module _ {J : Type 0} {D : Type 0} (json : Json J) (P : Platform) (engine : Option Engine)
    (storage : Option (Storage D)) (shuffle : List Text → List Text)
    (listing : Set → List Text) where
  construct_node-blockchain :
      (sockets : ℕ → Peer) (writable : Bool) (port : ℕ) (options : NodeOptions)
      (drawn : Option (Text × Text)) (file written : Option Text) (bc : Blockchain D) (n : Node J D)
      → construct_node json P sockets writable port options drawn file bc ≡ some (n, written)
      → n.blockchain ≡ set_on_transaction_added (set_on_block_added bc true) true
  unfolding construct_node new_node
  construct_node-blockchain sockets writable port options drawn file written bc n e =
      elim (Option-cases (load_or_create json P writable port options.public_ip drawn file)) [
        | inl out ↦ absurd (ground arith)
        | inr (identity, chosen) ↦ ground arith
      ]

  -- From the constructors of the chain, the node and the HTTP interface on, whatever clients and
  -- peers send, in whichever order, the chain is valid, the ledger is the one that the chain gives,
  -- and the mempool holds verified payments with distinct identifiers, none of them spent, if the
  -- engine, where there is one, seals as `Seals` asks.
  pub boot-IsConsistent :
      ((e : Engine) → engine ≡ some e → Seals P e)
      → (now fuel difficulty : ℕ) (disk : D) (bc : Blockchain D)
      → construct P engine storage now fuel difficulty disk ≡ some bc
      → (sockets : ℕ → Peer) (writable : Bool) (port : ℕ) (options : NodeOptions)
        (drawn : Option (Text × Text)) (file written : Option Text) (n : Node J D)
      → construct_node json P sockets writable port options drawn file bc ≡ some (n, written)
      → {since last : ℕ} {after : HttpServer J D}
      → Session json P engine storage shuffle listing since (new_http_server n) last after
      → IsConsistent P after.node.blockchain
  unfolding new_http_server
  boot-IsConsistent laws now fuel difficulty disk bc made sockets writable port options drawn file
        written n built run =
      let chain =
        construct_node-blockchain sockets writable port options drawn file written bc n built in
      let set =
        History.Reach.steps
          (History.Reach.steps (History.Reach.starts now fuel difficulty disk bc made)
            (History.sets_on_block_added true))
          (History.sets_on_transaction_added true) in
      History.Reach-IsConsistent P engine storage laws (
        http_Session-Reach json P engine storage shuffle listing run
          (subst (History.Reach P engine storage) (sym chain) set))
