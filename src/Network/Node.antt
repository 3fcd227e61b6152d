-- ===== src/Network/Node.antt =====
-- src/network/node.cpp and include/network/node.h: a node among its peers. Sockets, the waiting of the
-- timers and the writing half of src/network/peer.cpp are left out: a message that is sent and a dial that is
-- started are put at the end of a list. A `std::shared_ptr<Peer>` is a number. While one message is
-- handled the clocks stand still.
pub mod Peers
pub mod Dialing
pub mod Dedup
pub mod Repeats
pub mod Learning
pub mod ChainMessages
pub mod Handlers
pub mod Timers
pub mod Untouched
pub mod Quiet
pub mod Limits
pub mod Safety
pub mod Session
pub mod Sync
pub mod Starting
pub mod Stats
use personalblockchain.Prelude.{ℕ, Bool, List, Text}
use personalblockchain.Prelude.Map.{Map, Set}
use personalblockchain.Blockchain.{Blockchain}
use personalblockchain.Network.Message.{Message}
use personalblockchain.Network.PeerScorer
use personalblockchain.Network.PeerManager.{PeerManager}
use personalblockchain.Network.BootstrapManager.{BootstrapManager}
use personalblockchain.Network.ConnectionManager.{ConnectionManager}
use personalblockchain.Network.NodeIdentity.{NodeIdentityRecord}

-- A `Peer`: the remote end of its socket, whether the socket is open, the port that the peer has
-- announced, 0 for none, and when messages came in, the oldest first.
pub record Peer : Type 0 where
  pub address : Text
  pub remote_port : ℕ
  pub is_open : Bool
  pub known_listen_port : ℕ
  pub message_times : List ℕ

-- The options of `NodeOptions` that are used here.
pub record NodeOptions : Type 0 where
  pub public_ip : Text
  pub bootstrap_nodes : List Text
  pub max_outbound_peers : ℕ
  pub max_inbound_peers : ℕ
  pub max_retries : ℕ
  pub base_delay_ms : ℕ
  pub max_delay_ms : ℕ
  pub heartbeat_timeout_sec : ℕ
  pub reconnect_cooldown_ms : ℕ
  pub quarantine_sec : ℕ
  pub dedup_window_sec : ℕ

pub record Node (J : Type 0) (D : Type 0) : Type 0 where
  pub port : ℕ
  pub options : NodeOptions
  pub identity : NodeIdentityRecord
  pub blockchain : Blockchain D
  pub peer_scorer : PeerScorer.Peers
  pub peer_manager : PeerManager
  pub bootstrap_manager : BootstrapManager
  pub connection_manager : ConnectionManager
  -- What the pointers point to, and the pointers in `peers_`.
  pub sockets : ℕ → Peer
  pub peers : List ℕ
  pub seen_tx_ids : Set
  pub seen_block_hashes : Set
  pub message_dedup : Map ℕ
  -- The calls of `Peer::send`, and the dials that were started.
  pub sent : List (ℕ × Message J)
  pub dialed : List Text

-- How a call ends: with a value, with an exception that leaves it, or never, at a mutex that the
-- thread holds.
pub data Outcome (A : Type 0) : Type 0 where
  returns : A → Outcome A
  throws : Outcome A
  deadlocks : Outcome A

-- The two clocks, in nanoseconds.
pub record Clock : Type 0 where
  pub steady : ℕ
  pub system : ℕ
