-- ===== src/Network/Node/Handlers.antt =====
-- `handleMessage` of src/network/node.cpp. The shuffle of `getRandomPeers` and the order in which the
-- hash set of the topology is gone through are parameters.
use personalblockchain.Prelude.{ℕ, true, Option, none, some, List, Text, if◌then◌else◌}
use personalblockchain.Prelude.Map.{Set}
use personalblockchain.Platform.{Platform}
use personalblockchain.Json.{Json}
use personalblockchain.Consensus.{Engine}
use personalblockchain.Blockchain.{Storage}
use personalblockchain.Network.Message.{
  new_transaction, new_block, request_chain, response_chain, ping, pong, peer_list, request_peers,
  response_peers, node_announce, register_node, request_bootstrap, response_bootstrap, unknown,
  Message,
}
use personalblockchain.Network.PeerScorer.{is_banned, mark_seen, mark_pong_received}
use personalblockchain.Network.Node.{Node, Outcome, returns, throws, Clock}
use personalblockchain.Network.Node.Peers.{
  get_endpoint, is_rate_limited, update_peer, send, penalize_peer_by_endpoint, remove_peer,
}
use personalblockchain.Network.Node.Dedup.{deduplicate}
use personalblockchain.Network.Node.Learning.{
  on_node_announce, send_topology, on_register_node, on_request_peers,
}
use personalblockchain.Network.Node.ChainMessages.{
  penalty_invalid_tx, on_new_transaction, on_new_block, on_request_chain, on_response_chain,
}
use personalblockchain.Network.Node.Dialing.{handle_received_peers}

abbrev pub or_throws : {A : Type 0} → Option A → Outcome A
or_throws none = throws
or_throws (some a) = returns a

module _ {J : Type 0} {D : Type 0} (json : Json J) (P : Platform) (engine : Option Engine)
    (storage : Option (Storage D)) (shuffle : List Text → List Text) (listing : Set → List Text)
    (clock : Clock) where
  unfoldable pub dispatch : ℕ → Text → Message J → Node J D → Outcome (Node J D)
  dispatch id key msg n = elim msg.type [
    | node_announce ↦ or_throws (on_node_announce json clock id msg.payload n)
    | register_node ↦ or_throws (on_register_node json listing id msg.payload n)
    | request_bootstrap ↦ returns (send_topology json listing id n)
    | response_bootstrap ↦ returns (handle_received_peers json shuffle clock.steady msg.payload n)
    | new_transaction ↦
        returns (on_new_transaction json P engine storage clock id key msg.payload n)
    | new_block ↦ returns (on_new_block json P engine storage clock id key msg.payload n)
    | request_chain ↦ returns (on_request_chain json P engine storage clock id n)
    | response_chain ↦ returns (on_response_chain json P engine storage clock key msg.payload n)
    | ping ↦ returns (send id (record { type = pong; payload = json.object }) n)
    | pong ↦ returns (record n { peer_scorer = mark_pong_received clock.system key n.peer_scorer })
    | request_peers ↦ returns (on_request_peers json listing id n)
    | response_peers ↦ returns (handle_received_peers json shuffle clock.steady msg.payload n)
    | peer_list ↦ returns (handle_received_peers json shuffle clock.steady msg.payload n)
    | unknown ↦ returns n
  ]

  -- What follows the rate limit.
  unfoldable pub process : ℕ → Text → Message J → Node J D → Outcome (Node J D)
  process id key msg n =
      let (noted, is_new) = deduplicate json P clock msg n in
      if is_new
      then dispatch id key msg
          (record noted { peer_scorer = mark_seen clock.system key noted.peer_scorer })
      else returns noted

  unfoldable pub handle_message : ℕ → Message J → Node J D → Outcome (Node J D)
  handle_message id msg n =
      let key = get_endpoint (n.sockets id) in
      let limited = is_rate_limited clock.steady 100 (n.sockets id) in
      let counted = update_peer id (λ p. limited.0) n in
      if is_banned key n.peer_scorer
      then remove_peer clock.steady id true n
      else if limited.1
      then returns (penalize_peer_by_endpoint clock.steady key penalty_invalid_tx counted)
      else process id key msg counted
