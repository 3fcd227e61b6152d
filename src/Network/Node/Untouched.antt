-- ===== src/Network/Node/Untouched.antt =====
-- src/network/node.cpp: what a node does without touching its chain.
use personalblockchain.Prelude.{
  ℕ, ◌≡◌, refl, ◌∙◌, inl, inr, Bool, true, false, Option, none, some, List, [], ◌∷◌, Text, leb,
  if◌then◌else◌, arith, Bool-cases, Option-cases,
}
use personalblockchain.Prelude.Int.{ℤ, pos}
use personalblockchain.Prelude.Map.{contains}
use personalblockchain.Json.{Json}
use personalblockchain.Transaction.{Transaction}
use personalblockchain.Network.Message.{Message}
use personalblockchain.Network.ConnectionManager.{outbound_count}
use personalblockchain.Network.PeerManager.Endpoint.{parse_endpoint}
use personalblockchain.Network.Node.{Node}
use personalblockchain.Network.Node.Peers.{
  send, send_to_all, receivers, broadcast, broadcast_transaction, penalize_peer_by_endpoint,
  reward_peer_by_endpoint,
}
use personalblockchain.Network.Node.Dialing.{
  drop_lowest, connect_to_peer, connect_to_all, attempt_random_peer_expansion,
  handle_received_peers,
}

module _ {J : Type 0} {D : Type 0} where
  send_to_all-blockchain :
      (ids : List ℕ) (msg : Message J) (n : Node J D)
      → (send_to_all ids msg n).blockchain ≡ n.blockchain
  unfolding send
  send_to_all-blockchain [] msg n = refl
  send_to_all-blockchain (i ∷ ids) msg n = send_to_all-blockchain ids msg (send i msg n)

  pub broadcast-blockchain :
      (msg : Message J) (exclude : Option ℕ) (n : Node J D)
      → (broadcast msg exclude n).blockchain ≡ n.blockchain
  unfolding broadcast
  broadcast-blockchain msg exclude n = send_to_all-blockchain (receivers exclude n) msg n

  pub broadcast_transaction-blockchain :
      (json : Json J) (tx : Transaction) (n : Node J D)
      → (broadcast_transaction json tx n).blockchain ≡ n.blockchain
  unfolding broadcast_transaction
  broadcast_transaction-blockchain json tx n = elim (Bool-cases (contains tx.tx_id n.seen_tx_ids)) [
    | inl seen ↦ rw seen refl
    | inr new ↦ rw new (broadcast-blockchain _ none _)
  ]

  pub penalize-blockchain :
      (now : ℕ) (key : Text) (penalty : ℤ) (n : Node J D)
      → (penalize_peer_by_endpoint now key penalty n).blockchain ≡ n.blockchain
  unfolding penalize_peer_by_endpoint
  penalize-blockchain now key penalty n = ground arith

  reward-blockchain :
      (key : Text) (points : ℤ) (n : Node J D)
      → (reward_peer_by_endpoint key points n).blockchain ≡ n.blockchain
  unfolding reward_peer_by_endpoint
  reward-blockchain key points n = refl

  pub told-blockchain :
      (json : Json J) (tx : Transaction) (msg : Message J) (id : ℕ) (key : Text) (n : Node J D)
      → (callback : Bool)
      → (broadcast msg (some id) (
          reward_peer_by_endpoint key
            (pos 1)
            (if callback then broadcast_transaction json tx n else n))).blockchain
        ≡ n.blockchain
  unfolding reward_peer_by_endpoint
  told-blockchain json tx msg id key n true =
      broadcast-blockchain msg (some id) _ ∙ broadcast_transaction-blockchain json tx n
  told-blockchain json tx msg id key n false = broadcast-blockchain msg (some id) _

  pub drop_lowest-blockchain : (n : Node J D) → (drop_lowest n).blockchain ≡ n.blockchain
  unfolding drop_lowest
  drop_lowest-blockchain n = ground arith

  connect_to_peer-blockchain :
      (now : ℕ) (host : Text) (port : ℕ) (n : Node J D)
      → (connect_to_peer now host port n).blockchain ≡ n.blockchain
  unfolding connect_to_peer
  connect_to_peer-blockchain now host port n = ground (arith, drop_lowest-blockchain n)

  pub connect_to_all-blockchain :
      (now : ℕ) (endpoints : List Text) (n : Node J D)
      → (connect_to_all now endpoints n).blockchain ≡ n.blockchain
  connect_to_all-blockchain now [] n = refl
  connect_to_all-blockchain now (e ∷ endpoints) n = elim (Option-cases (parse_endpoint e)) [
    | inl out ↦ rw (out, connect_to_all) (connect_to_all-blockchain now endpoints n)
    | inr (target, into) ↦
        rw (into, connect_to_all)
          (connect_to_all-blockchain now endpoints (connect_to_peer now target.0 target.1 n)
            ∙ connect_to_peer-blockchain now target.0 target.1 n)
  ]

  pub expansion-blockchain :
      (shuffle : List Text → List Text) (now : ℕ) (n : Node J D)
      → (attempt_random_peer_expansion shuffle now n).blockchain ≡ n.blockchain
  unfolding attempt_random_peer_expansion
  expansion-blockchain shuffle now n =
      elim (Bool-cases (leb n.options.max_outbound_peers (outbound_count n.connection_manager))) [
        | inl full ↦ rw full refl
        | inr room ↦ rw room (connect_to_all-blockchain now _ n)
      ]

  pub handle_received_peers-blockchain :
      (json : Json J) (shuffle : List Text → List Text) (now : ℕ) (payload : J) (n : Node J D)
      → (handle_received_peers json shuffle now payload n).blockchain ≡ n.blockchain
  unfolding handle_received_peers
  handle_received_peers-blockchain json shuffle now payload n =
      elim (Option-cases (json.elements payload)) [
        | inl out ↦ rw (out, handle_received_peers) refl
        | inr (entries, listed) ↦
            rw (listed, handle_received_peers) (expansion-blockchain shuffle now _)
      ]
