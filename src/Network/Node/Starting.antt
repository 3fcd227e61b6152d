-- ===== src/Network/Node/Starting.antt =====
-- src/network/node.cpp: the constructor of a node, and `start`, whose timers are events of their own.
use personalblockchain.Prelude.{◌>>=◌, ℕ, Bool, true, Option, some, List, [], ◌∷◌, Text}
use personalblockchain.Json.{Json}
use personalblockchain.Platform.{Platform}
use personalblockchain.Blockchain.{Blockchain, set_on_block_added, set_on_transaction_added}
use personalblockchain.Network.NodeIdentity.{NodeIdentityRecord, load_or_create}
use personalblockchain.Network.PeerManager.{PeerManager, empty_manager, add_known_peer}
use personalblockchain.Network.BootstrapManager.{set_bootstrap_peers}
use personalblockchain.Network.ConnectionManager.{new_manager}
use personalblockchain.Network.Node.{Peer, NodeOptions, Node, Clock}
use personalblockchain.Network.Node.Timers.{connect_to_bootstrap_peers}

abbrev add_known_peers : List Text → PeerManager → PeerManager
add_known_peers [] pm = pm
add_known_peers (e ∷ endpoints) pm = add_known_peers endpoints (add_known_peer e pm)

module _ {J : Type 0} {D : Type 0} where
  -- A node with this identity. The two callbacks of the chain are set; no peer is connected, and
  -- what the pointers will point to is `sockets`.
  unfoldable pub new_node :
      (ℕ → Peer) → ℕ → NodeOptions → NodeIdentityRecord → Blockchain D → Node J D
  new_node sockets port options identity bc = record {
    port = port;
    options = options;
    identity = identity;
    blockchain = set_on_transaction_added (set_on_block_added bc true) true;
    peer_scorer = [];
    peer_manager = add_known_peers options.bootstrap_nodes empty_manager;
    bootstrap_manager =
        set_bootstrap_peers options.bootstrap_nodes
          (record { bootstrap_peers = []; topology_peers = [] });
    connection_manager = new_manager options.max_outbound_peers options.max_inbound_peers;
    sockets = sockets;
    peers = [];
    seen_tx_ids = [];
    seen_block_hashes = [];
    message_dedup = [];
    sent = [];
    dialed = [];
  }

  -- The constructor, with the file of the identity; nothing where it throws.
  unfoldable pub construct_node :
      Json J
      → Platform
      → (ℕ → Peer)
      → Bool
      → ℕ
      → NodeOptions
      → Option (Text × Text)
      → Option Text
      → Blockchain D
      → Option (Node J D × Option Text)
  construct_node json P sockets writable port options drawn file bc = do
    (identity, written) ← load_or_create json P writable port options.public_ip drawn file
    some (new_node sockets port options identity bc, written.0)

  unfoldable pub start : Json J → Clock → Node J D → Node J D
  start json clock n = connect_to_bootstrap_peers json clock.steady n
