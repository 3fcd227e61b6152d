-- ===== src/Network/HttpServer.antt =====
-- src/network/http_server.cpp and include/network/http_server.h: the HTTP interface of a node. Sockets
-- are left out, and so is `wallets_`, which nothing uses.
pub mod Words
pub mod Requests
pub mod Responses
pub mod Wallets
pub mod Pending
pub mod Sending
pub mod Mining
pub mod Views
pub mod Routing
pub mod Connections
pub mod Untouched
pub mod Safety
pub mod Sends
pub mod Following
pub mod Refusals
pub mod Session
pub mod Boot
pub mod Cooldown
pub mod Framing
pub mod Printing
pub mod Printed
pub mod Answers
pub mod Bodies
pub mod Logins
use personalblockchain.Prelude.{ℕ, Option, [], Text, codes}
use personalblockchain.Prelude.Map.{Map, Set, add}
use personalblockchain.Wallet.{Challenges}
use personalblockchain.Network.NetworkMetrics.{NetworkMetrics}
use personalblockchain.Network.Node.{Node, Clock}

-- The state behind the handlers. The node holds the chain, which both share.
pub record HttpServer (J : Type 0) (D : Type 0) : Type 0 where
  pub node : Node J D
  pub known_addresses : Set
  -- In nanoseconds of the steady clock.
  pub last_mine_at : Map ℕ
  -- The state of `walletManager_`.
  pub challenges : Challenges

-- What one request takes from outside: the clocks when it begins, the system clock when a block is
-- put together, the steady clock when it is sealed, the fuel of the nonce search, what OpenSSL draws for
-- a key pair, a random challenge, the text of an exception, and the counters of the node.
pub record Moment : Type 0 where
  pub clock : Clock
  pub later : ℕ
  pub sealed : ℕ
  pub fuel : ℕ
  pub key_pair : Option (Text × Text)
  pub random_challenge : Text
  pub what : Text
  pub metrics : NetworkMetrics

-- The constructor.
unfoldable pub new_http_server : {J D : Type 0} → Node J D → HttpServer J D
new_http_server node = record {
  node = node;
  known_addresses = add (codes "GENESIS") [];
  last_mine_at = [];
  challenges = [];
}
