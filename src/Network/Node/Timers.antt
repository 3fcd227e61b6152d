-- ===== src/Network/Node/Timers.antt =====
-- src/network/node.cpp: what a node does when a connection is made or fails, and when a timer fires.
use personalblockchain.Prelude.{
  ℕ, ◌+◌, ◌*◌, ◌^◌, min, not, Option, none, some, List, [], ◌∷◌, ◌++◌, Text, codes, text_eq, keep,
  leb, if◌then◌else◌,
}
use personalblockchain.Json.{Json}
use personalblockchain.Network.Message.{
  ping, request_chain, request_peers, node_announce, register_node, request_bootstrap,
}
use personalblockchain.Network.PeerScorer.{
  add_peer, mark_ping_sent, get_heartbeat_timeout_peers, evict_stale_peers,
}
use personalblockchain.Network.PeerManager.{add_known_peer, quarantine_peer}
use personalblockchain.Network.PeerManager.Endpoint.{make_endpoint}
use personalblockchain.Network.BootstrapManager.{register_peer}
use personalblockchain.Network.ConnectionManager.{
  ConnectionManager, inbound, outbound, can_accept, register_connection, unregister_connection,
}
use personalblockchain.Network.NodeIdentity as NodeIdentity
use personalblockchain.Network.Node.{Peer, Node, Clock}
use personalblockchain.Network.Node.Peers.{get_endpoint, close, update_peer, send, broadcast}
use personalblockchain.Network.Node.Dialing.{
  drop_lowest, connect_to_all, attempt_random_peer_expansion,
}

-- A round of the retries: quarantine, or the delay until the next dial. The jitter is random.
unfoldable pub retry_connect :
    {J D : Type 0} → ℕ → ℕ → Text → ℕ → ℕ → Node J D → Node J D × Option ℕ
retry_connect now jitter host port retry_count n =
    if leb n.options.max_retries retry_count
    then (
      record n {
        peer_manager =
            quarantine_peer now (make_endpoint host port) n.options.quarantine_sec n.peer_manager;
      },
      none,
    )
    else (n, some (min (n.options.base_delay_ms * 2 ^ retry_count) n.options.max_delay_ms + jitter))

-- Every closed peer is unregistered under the endpoint that it has then.
abbrev pub unregister_closed : (ℕ → Peer) → List ℕ → ConnectionManager → ConnectionManager
unregister_closed sockets [] cm = cm
unregister_closed sockets (i ∷ ids) cm =
    unregister_closed sockets ids
      (if (sockets i).is_open then cm else unregister_connection (get_endpoint (sockets i)) cm)

module _ {J : Type 0} {D : Type 0} (json : Json J) where
  abbrev pub introduction : Node J D → J
  introduction n =
      json.set (codes "nodeId") (json.text n.identity.node_id)
        (json.set (codes "requester") (json.text (NodeIdentity.endpoint n.identity)) json.object)

  unfoldable pub send_node_announce : ℕ → Node J D → Node J D
  send_node_announce id n =
      send id
        (record {
          type = node_announce;
          payload = json.set (codes "endpoint") (json.text (NodeIdentity.endpoint n.identity)) (
              json.set (codes "port") (json.number n.port) (
                json.set (codes "publicIp") (json.text n.identity.advertised_ip) (
                  json.set (codes "publicKey") (json.text n.identity.public_key)
                    (json.set (codes "nodeId") (json.text n.identity.node_id) json.object))));
        })
        n

  unfoldable pub request_chain_from_peers : Node J D → Node J D
  request_chain_from_peers n =
      broadcast (record { type = request_chain; payload = json.object }) none n

  unfoldable pub request_peers_from_all : Node J D → Node J D
  request_peers_from_all n =
      broadcast (record { type = request_peers; payload = introduction n }) none n

  -- The handler of `doAccept`, with the new peer.
  unfoldable pub accept_peer : ℕ → Peer → Node J D → Node J D
  accept_peer id peer n =
      let freed = if can_accept inbound n.connection_manager then n else drop_lowest n in
      let endpoint = get_endpoint peer in
      if not (can_accept inbound freed.connection_manager)
      then freed
      else send_node_announce id (record (update_peer id (λ p. peer) freed) {
        peer_manager = add_known_peer endpoint freed.peer_manager;
        bootstrap_manager = register_peer endpoint freed.bootstrap_manager;
        connection_manager = register_connection endpoint inbound freed.connection_manager;
        peers = freed.peers ++ id ∷ [];
      })

  -- The end of a dial that `connectToPeer` began.
  unfoldable pub complete_dial : Clock → ℕ → Peer → Text → ℕ → Node J D → Node J D
  complete_dial clock id peer host port n =
      let endpoint = make_endpoint host port in
      let joined = record (update_peer id (λ p. record peer { known_listen_port = port }) n) {
        peer_scorer = add_peer clock.system host port n.peer_scorer;
        peer_manager = add_known_peer endpoint n.peer_manager;
        bootstrap_manager = register_peer endpoint n.bootstrap_manager;
        peers = n.peers ++ id ∷ [];
        connection_manager = register_connection endpoint outbound n.connection_manager;
      } in
      send id (record { type = request_chain; payload = json.object })
        (send id (record { type = request_peers; payload = introduction n })
          (send id (record { type = request_bootstrap; payload = json.object })
            (send id
              (record {
                type = register_node;
                payload = json.set (codes "nodeId") (json.text n.identity.node_id) (
                    json.set (codes "endpoint") (json.text (NodeIdentity.endpoint n.identity))
                      json.object);
              })
              (send_node_announce id joined))))

  unfoldable pub connect_to_bootstrap_peers : ℕ → Node J D → Node J D
  connect_to_bootstrap_peers now n = connect_to_all now n.bootstrap_manager.bootstrap_peers n

  unfoldable pub gossip_round : (List Text → List Text) → Clock → Node J D → Node J D
  gossip_round shuffle clock n =
      let asked = attempt_random_peer_expansion shuffle clock.steady (request_peers_from_all n) in
      record asked { peer_scorer = evict_stale_peers clock.system 300 asked.peer_scorer }

  abbrev pub ping_all : ℕ → List ℕ → Node J D → Node J D
  ping_all now [] n = n
  ping_all now (i ∷ ids) n = ping_all now ids (
      send i (record { type = ping; payload = json.object })
        (record n { peer_scorer = mark_ping_sent now (get_endpoint (n.sockets i)) n.peer_scorer }))

  -- Every peer with the endpoint is closed.
  abbrev pub close_all : ℕ → Text → List ℕ → Node J D → Node J D
  close_all now endpoint [] n = n
  close_all now endpoint (i ∷ ids) n = close_all now endpoint ids (
      if text_eq (get_endpoint (n.sockets i)) endpoint
      then record (update_peer i close n) {
        peer_manager = quarantine_peer now endpoint n.options.quarantine_sec n.peer_manager;
      }
      else n)

  abbrev pub drop_silent : ℕ → List Text → Node J D → Node J D
  drop_silent now [] n = n
  drop_silent now (e ∷ endpoints) n =
      let closed = close_all now e n.peers n in
      drop_silent now endpoints
        (record closed { connection_manager = unregister_connection e closed.connection_manager })

  abbrev pub sweep : Node J D → Node J D
  sweep n = record n {
    connection_manager = unregister_closed n.sockets n.peers n.connection_manager;
    peers = keep (λ i. (n.sockets i).is_open) n.peers;
  }

  unfoldable pub heartbeat_round : Clock → Node J D → Node J D
  heartbeat_round clock n =
      let pinged = ping_all clock.system (sweep n).peers (sweep n) in
      drop_silent clock.steady
        (get_heartbeat_timeout_peers clock.system n.options.heartbeat_timeout_sec
          pinged.peer_scorer)
        pinged
