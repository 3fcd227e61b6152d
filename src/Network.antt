-- ===== src/Network.antt =====
-- src/network: messages, the reputation of peers, the address book, connections, the identity and the
-- counters of a node, the node that uses them, and its HTTP interface.
pub mod Message
pub mod PeerScorer
pub mod PeerManager
pub mod BootstrapManager
pub mod Node
pub mod ConnectionManager
pub mod HttpServer
pub mod NodeIdentity
pub mod NetworkMetrics
