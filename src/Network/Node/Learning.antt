-- ===== src/Network/Node/Learning.antt =====
-- src/network/node.cpp: the messages by which nodes learn of each other. The order in which the hash
-- set of the topology is gone through is a parameter.
use personalblockchain.Prelude.{
  ℕ, ◌%◌, ◌^◌, not, ◌&&◌, Option, some, List, [], ◌∷◌, ◌++◌, map, Text, codes, is_empty, ltb,
  if◌then◌else◌, ◌>>=◌,
}
use personalblockchain.Prelude.Map.{Set, add}
use personalblockchain.Json.{Json}
use personalblockchain.Network.Message.{response_peers, response_bootstrap}
use personalblockchain.Network.PeerScorer.{add_peer}
use personalblockchain.Network.PeerManager.{add_known_peer}
use personalblockchain.Network.PeerManager.Endpoint.{make_endpoint}
use personalblockchain.Network.BootstrapManager.{register_peer, known_topology}
use personalblockchain.Network.NodeIdentity as NodeIdentity
use personalblockchain.Network.Node.{Node, Clock}
use personalblockchain.Network.Node.Peers.{update_peer, send}

-- `std::sort` and `std::unique`
abbrev sorted_unique : List Text → Set
sorted_unique [] = []
sorted_unique (s ∷ ss) = add s (sorted_unique ss)

abbrev pub texts : {J : Type 0} → Json J → List Text → J
texts json ts = json.array (map json.text ts)

module _ {J : Type 0} {D : Type 0} where
  abbrev pub learn_endpoint : Text → Node J D → Node J D
  learn_endpoint endpoint n = record n {
    peer_manager = add_known_peer endpoint n.peer_manager;
    bootstrap_manager = register_peer endpoint n.bootstrap_manager;
  }

  -- An endpoint of a message, where there is one.
  unfoldable pub learn : Text → Node J D → Node J D
  learn endpoint n = if is_empty endpoint then n else learn_endpoint endpoint n

  unfoldable pub learn_address : Clock → ℕ → Text → ℕ → Node J D → Node J D
  learn_address clock id public_ip peer_port n =
      if not (is_empty public_ip) && ltb 0 peer_port
      then learn_endpoint (make_endpoint public_ip peer_port)
          (record (update_peer id (λ p. record p { known_listen_port = peer_port }) n) {
            peer_scorer = add_peer clock.system public_ip peer_port n.peer_scorer;
          })
      else n

module _ {J : Type 0} {D : Type 0} (json : Json J) where
  -- Nothing in place of an exception that leaves the handler.
  unfoldable pub on_node_announce : Clock → ℕ → J → Node J D → Option (Node J D)
  on_node_announce clock id payload n = do
    public_ip ← json.value_text payload (codes "publicIp") []
    number ← json.value_number payload (codes "port") 0
    endpoint ← json.value_text payload (codes "endpoint") []
    some (learn endpoint (learn_address clock id public_ip (number % 2 ^ 16) n))

  module _ (listing : Set → List Text) where
    unfoldable pub send_topology : ℕ → Node J D → Node J D
    send_topology id n =
        send id
          (record {
            type = response_bootstrap;
            payload = texts json (known_topology listing 512 n.bootstrap_manager);
          })
          n

    unfoldable pub on_register_node : ℕ → J → Node J D → Option (Node J D)
    on_register_node id payload n = do
      endpoint ← json.value_text payload (codes "endpoint") []
      some (send_topology id (learn endpoint n))

    unfoldable pub on_request_peers : ℕ → Node J D → Node J D
    on_request_peers id n =
        send id
          (record {
            type = response_peers;
            payload = texts json (
                sorted_unique (
                  n.peer_manager.known_peers
                  ++ (NodeIdentity.endpoint n.identity)
                    ∷ known_topology listing 256 n.bootstrap_manager));
          })
          n
