-- ===== src/Samples/Node.antt =====
-- A node among its peers at concrete inputs.
use personalblockchain.Prelude.{
  arith, ◌≡◌, refl, true, List, [], ◌∷◌, Text, codes, text_eq, text_lt, decimal,
}
use personalblockchain.Prelude.Map.{lookup, insert}
use personalblockchain.Prelude.Int.{pos}
use personalblockchain.Network.Message.{Message, ping}
use personalblockchain.Network.PeerScorer.{add_peer, new_peer, is_banned, mark_seen}
use personalblockchain.Network.PeerManager.{empty_manager}
use personalblockchain.Network.PeerManager.Endpoint.{make_endpoint}
use personalblockchain.Network.ConnectionManager.{new_manager, inbound_count}
use personalblockchain.Network.Node.{Peer, NodeOptions, Node, returns, throws, deadlocks, Clock}
use personalblockchain.Network.Node.Peers.{get_endpoint, is_rate_limited, send}
use personalblockchain.Network.Node.Dedup.{deduplicate}
use personalblockchain.Network.Node.Handlers.{dispatch, process, handle_message}
use personalblockchain.Network.Node.Limits.{IsWithin, accept_all, accept_all-IsWithin}
use personalblockchain.Samples.Toy.{toy}
use personalblockchain.Samples.Values.{Value, object, values}
use personalblockchain.Samples.Chain.{engine, storage, start}

abbrev pub key : Text
key = codes "a:1"

abbrev pub clock : Clock
clock = record { steady = 7_000_000_000; system = 8_000_000_000 }

abbrev peer : Peer
peer = record {
  address = codes "a";
  remote_port = 1;
  is_open = true;
  known_listen_port = 0;
  message_times = [];
}

abbrev options : NodeOptions
options = record {
  public_ip = [];
  bootstrap_nodes = codes "c:2" ∷ [];
  max_outbound_peers = 8;
  max_inbound_peers = 32;
  max_retries = 6;
  base_delay_ms = 500;
  max_delay_ms = 30000;
  heartbeat_timeout_sec = 45;
  reconnect_cooldown_ms = 1200;
  quarantine_sec = 120;
  dedup_window_sec = 90;
}

-- A node with the one peer "a:1".
abbrev pub node : Node Value (Unit {0})
node = record {
  port = 6000;
  options = options;
  identity = record {
    node_id = codes "b";
    public_key = codes "bob";
    private_key = codes "c0";
    advertised_ip = codes "b";
    port = 6000;
    reputation = pos 100;
  };
  blockchain = start;
  peer_scorer = add_peer 5 (codes "a") 1 [];
  peer_manager = empty_manager;
  bootstrap_manager = record { bootstrap_peers = []; topology_peers = [] };
  connection_manager = new_manager 8 32;
  sockets = λ i. peer;
  peers = 0 ∷ [];
  seen_tx_ids = [];
  seen_block_hashes = [];
  message_dedup = [];
  sent = [];
  dialed = [];
}

abbrev same : List Text → List Text
same xs = xs

abbrev pinged : Message Value
pinged = record { type = ping; payload = object }

abbrev after : Node Value (Unit {0})
after = elim (handle_message values toy engine storage same same clock 0 pinged node) [
  | returns n ↦ n
  | throws ↦ node
  | deadlocks ↦ node
]

handled : handle_message values toy engine storage same same clock 0 pinged node ≡ returns after
unfolding handle_message process dispatch deduplicate get_endpoint make_endpoint is_rate_limited
    is_banned add_peer new_peer lookup insert text_eq text_lt decimal send mark_seen
handled = refl

-- A node that takes one inbound connection.
abbrev narrow : Node Value (Unit {0})
narrow = record node { connection_manager = new_manager 8 1 }

narrow-IsWithin : IsWithin values toy 1 narrow
unfolding inbound_count
narrow-IsWithin = record { limit = refl; within = omega arith }

accept_all-IsWithin_example :
    IsWithin values toy 1 (accept_all values toy ((7, peer) ∷ (8, peer) ∷ []) narrow)
accept_all-IsWithin_example =
    accept_all-IsWithin values toy 1 ((7, peer) ∷ (8, peer) ∷ []) narrow narrow-IsWithin
