-- ===== src/Network/Node/Stats.antt =====
-- src/network/node.cpp: what a node tells of itself. The counters are an argument, since the handlers of
-- the model leave out where they refresh them.
use personalblockchain.Prelude.{codes, length, keep}
use personalblockchain.Json.{Json}
use personalblockchain.Network.NodeIdentity as NodeIdentity
use personalblockchain.Network.NetworkMetrics as NetworkMetrics
use personalblockchain.Network.NetworkMetrics.{
  NetworkMetrics, set_connected_peers, set_known_peers, set_banned_peers,
}
use personalblockchain.Network.PeerManager.{quarantined_peer_count}
use personalblockchain.Network.ConnectionManager.{inbound_count, outbound_count}
use personalblockchain.Network.Node.{Node, Clock}
use personalblockchain.Network.Node.Peers.{get_peer_list}

module _ {J : Type 0} {D : Type 0} where
  -- The counters after a `refreshMetrics` that does not stand still at its mutex.
  unfoldable pub refreshed : Node J D → NetworkMetrics → NetworkMetrics
  refreshed n metrics =
      let banned = length (keep (λ entry. entry.1.banned) n.peer_scorer) in
      set_banned_peers banned (
        set_known_peers (length n.peer_manager.known_peers)
          (set_connected_peers (length (get_peer_list n)) metrics))

  unfoldable pub get_network_stats : Json J → Clock → NetworkMetrics → Node J D → J
  get_network_stats json clock metrics n =
      let limits = json.set (codes "maxOutboundPeers") (json.number n.options.max_outbound_peers) (
        json.set (codes "maxInboundPeers") (json.number n.options.max_inbound_peers) (
          json.set (codes "currentOutboundPeers")
            (json.number (outbound_count n.connection_manager))
            (json.set (codes "currentInboundPeers")
              (json.number (inbound_count n.connection_manager)) json.object))) in
      json.set (codes "quarantinedPeers")
        (json.number (quarantined_peer_count clock.steady n.peer_manager))
        (json.set (codes "connectionLimits") limits (
          json.set (codes "node") (NodeIdentity.to_json json n.identity)
            (NetworkMetrics.to_json json clock.steady metrics)))
