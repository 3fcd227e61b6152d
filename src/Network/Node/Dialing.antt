-- ===== src/Network/Node/Dialing.antt =====
-- src/network/node.cpp: which endpoints a node dials. The shuffle of `getRandomPeers` is a parameter.
use personalblockchain.Prelude.{
  ℕ, ◌-◌, max, Bool, false, not, ◌&&◌, ◌||◌, none, some, List, [], ◌∷◌, ◌++◌, Text, is_empty,
  text_eq, leb, ◌==◌, if◌then◌else◌,
}
use personalblockchain.Json.{Json}
use personalblockchain.Network.PeerScorer.{is_banned}
use personalblockchain.Network.PeerManager.{
  should_attempt_connection, is_quarantined, mark_dial_attempt, get_random_peers, merge_known_peers,
}
use personalblockchain.Network.PeerManager.Endpoint.{parse_endpoint, make_endpoint}
use personalblockchain.Network.BootstrapManager.{BootstrapManager, register_peer}
use personalblockchain.Network.ConnectionManager.{
  outbound, can_accept, outbound_count, select_lowest_score_peer_to_drop,
}
use personalblockchain.Network.NodeIdentity as NodeIdentity
use personalblockchain.Network.Node.{Node}
use personalblockchain.Network.Node.Peers.{
  is_already_connected, connected_peer_scores, get_peer_list, find_peer, close, update_peer,
}

abbrev register_all : List Text → BootstrapManager → BootstrapManager
register_all [] bm = bm
register_all (e ∷ endpoints) bm = register_all endpoints (register_peer e bm)

module _ {J : Type 0} {D : Type 0} where
  -- The peer with the lowest score is closed.
  unfoldable pub drop_lowest : Node J D → Node J D
  drop_lowest n =
      let candidate = select_lowest_score_peer_to_drop (connected_peer_scores n) in
      if is_empty candidate then n else elim (find_peer candidate n.sockets n.peers) [
        | none ↦ n
        | some id ↦ update_peer id close n
      ]

  -- What `connectToPeer` asks of the endpoint.
  unfoldable pub may_dial : ℕ → Text → ℕ → Node J D → Bool
  may_dial now host port n =
      let endpoint = make_endpoint host port in
      not (port == n.port)
      && not (is_already_connected host port n)
      && should_attempt_connection now endpoint n.options.reconnect_cooldown_ms n.peer_manager
      && not (is_quarantined now endpoint n.peer_manager)
      && not (is_banned endpoint n.peer_scorer)

  -- Up to the resolver, which goes on later.
  unfoldable pub connect_to_peer : ℕ → Text → ℕ → Node J D → Node J D
  connect_to_peer now host port n =
      let endpoint = make_endpoint host port in
      let freed = if can_accept outbound n.connection_manager then n else drop_lowest n in
      if not (may_dial now host port n)
      then n
      else if not (can_accept outbound freed.connection_manager)
      then freed
      else record freed {
        peer_manager = mark_dial_attempt now endpoint freed.peer_manager;
        dialed = freed.dialed ++ endpoint ∷ [];
      }

  abbrev pub connect_to_all : ℕ → List Text → Node J D → Node J D
  connect_to_all now [] n = n
  connect_to_all now (e ∷ endpoints) n = elim (parse_endpoint e) [
    | none ↦ connect_to_all now endpoints n
    | some (host, port) ↦ connect_to_all now endpoints (connect_to_peer now host port n)
  ]

  unfoldable pub attempt_random_peer_expansion : (List Text → List Text) → ℕ → Node J D → Node J D
  attempt_random_peer_expansion shuffle now n =
      let outbound_now = outbound_count n.connection_manager in
      let exclude = get_peer_list n ++ (NodeIdentity.endpoint n.identity) ∷ [] in
      let needed = n.options.max_outbound_peers - outbound_now in
      if leb n.options.max_outbound_peers outbound_now
      then n
      else connect_to_all now (get_random_peers shuffle now (max needed 2) exclude n.peer_manager) n

  -- The tests of one endpoint that a peer has sent.
  unfoldable pub is_discovered : ℕ → Node J D → Text → Bool
  is_discovered now n endpoint =
      not (is_empty endpoint || text_eq endpoint (NodeIdentity.endpoint n.identity))
      && elim (parse_endpoint endpoint) [ none ↦ false | some (host, port) ↦ not (port == n.port) ]
      && not (is_banned endpoint n.peer_scorer || is_quarantined now endpoint n.peer_manager)

  unfoldable pub discovered : Json J → ℕ → Node J D → List J → List Text
  discovered json now n [] = []
  discovered json now n (entry ∷ entries) =
      let rest = discovered json now n entries in
      elim (json.as_text entry) [
        | none ↦ rest
        | some endpoint ↦ if is_discovered now n endpoint then endpoint ∷ rest else rest
      ]

  -- The metrics at the end are left out.
  unfoldable pub handle_received_peers :
      Json J → (List Text → List Text) → ℕ → J → Node J D → Node J D
  handle_received_peers json shuffle now payload n = elim (json.elements payload) [
    | none ↦ n
    | some entries ↦
        let found = discovered json now n entries in
        attempt_random_peer_expansion shuffle now (record n {
          peer_manager = merge_known_peers found n.peer_manager;
          bootstrap_manager = register_all found n.bootstrap_manager;
        })
  ]
