-- ===== src/Network/Node/Quiet.antt =====
-- The events of a node that are no messages (src/network/node.cpp): connections and timers.
use personalblockchain.Prelude.{
  ℕ, ◌≡◌, refl, ◌∙◌, true, false, leb, none, inl, inr, List, [], ◌∷◌, Text, codes, text_eq, arith,
  Bool-cases,
}
use personalblockchain.Prelude.Map.{lookup, contains, lookup-erase_ne}
use personalblockchain.Platform.{Platform}
use personalblockchain.Json.{Json}
use personalblockchain.Transaction.{Transaction}
use personalblockchain.Block.{Block}
use personalblockchain.Network.PeerScorer.{get_heartbeat_timeout_peers}
use personalblockchain.Network.ConnectionManager.{
  ConnectionManager, inbound, can_accept, unregister_connection,
}
use personalblockchain.Network.Node.{Peer, Node, Clock}
use personalblockchain.Network.Node.Peers.{
  get_endpoint, send, broadcast_transaction, broadcast_block,
}
use personalblockchain.Network.Node.Dialing.{drop_lowest, attempt_random_peer_expansion}
use personalblockchain.Network.Node.Timers.{
  retry_connect, send_node_announce, request_chain_from_peers, request_peers_from_all, accept_peer,
  complete_dial, connect_to_bootstrap_peers, gossip_round, ping_all, close_all, drop_silent,
  unregister_closed, heartbeat_round, sweep,
}
use personalblockchain.Network.Node.Untouched.{
  broadcast-blockchain, broadcast_transaction-blockchain, drop_lowest-blockchain,
  connect_to_all-blockchain, expansion-blockchain,
}

-- The sweep of a heartbeat frees no slot: whichever peers are closed, the entry of every endpoint but
-- the text "unknown" is as it was, since a closed socket has no other endpoint.
unregister_closed-lookup :
    (sockets : ℕ → Peer) (ids : List ℕ) (cm : ConnectionManager) (e : Text)
    → text_eq (codes "unknown") e ≡ false
    → lookup e (unregister_closed sockets ids cm).peers ≡ lookup e cm.peers
unfolding get_endpoint unregister_connection
unregister_closed-lookup sockets [] cm e h = refl
unregister_closed-lookup sockets (i ∷ ids) cm e h = elim (Bool-cases (sockets i).is_open) [
  | inl connected ↦ rw (connected, unregister_closed) (unregister_closed-lookup sockets ids cm e h)
  | inr closed ↦
      rw (closed, unregister_closed)
        (unregister_closed-lookup sockets ids (unregister_connection (codes "unknown") cm) e h
          ∙ lookup-erase_ne (codes "unknown") e cm.peers h)
]

module _ {J : Type 0} {D : Type 0} (json : Json J) (P : Platform)
    (shuffle : List Text → List Text) where
  pub data Quiet (n : Node J D) : Node J D → Type 0 where
    accepts : (id : ℕ) (peer : Peer) → Quiet n (accept_peer json id peer n)
    connects :
        (clock : Clock) (id : ℕ) (peer : Peer) (host : Text) (port : ℕ)
        → Quiet n (complete_dial json clock id peer host port n)
    retries :
        (now jitter : ℕ) (host : Text) (port retry_count : ℕ)
        → Quiet n (retry_connect now jitter host port retry_count n).0
    bootstraps : (now : ℕ) → Quiet n (connect_to_bootstrap_peers json now n)
    asks_for_chains : Quiet n (request_chain_from_peers json n)
    gossips : (clock : Clock) → Quiet n (gossip_round json shuffle clock n)
    rotates : (now : ℕ) → Quiet n (attempt_random_peer_expansion shuffle now n)
    beats : (clock : Clock) → Quiet n (heartbeat_round json clock n)
    tells_transaction : (tx : Transaction) → Quiet n (broadcast_transaction json tx n)
    tells_block : (block : Block) → Quiet n (broadcast_block json P block n)

  ping_all-blockchain :
      (now : ℕ) (ids : List ℕ) (n : Node J D) → (ping_all json now ids n).blockchain ≡ n.blockchain
  unfolding send
  ping_all-blockchain now [] n = refl
  ping_all-blockchain now (i ∷ ids) n = ping_all-blockchain now ids _

  close_all-blockchain :
      (now : ℕ) (endpoint : Text) (ids : List ℕ) (n : Node J D)
      → (close_all json now endpoint ids n).blockchain ≡ n.blockchain
  close_all-blockchain now endpoint [] n = refl
  close_all-blockchain now endpoint (i ∷ ids) n =
      elim (Bool-cases (text_eq (get_endpoint (n.sockets i)) endpoint)) [
        | inl here ↦ rw (here, close_all) (close_all-blockchain now endpoint ids _)
        | inr there ↦ rw (there, close_all) (close_all-blockchain now endpoint ids n)
      ]

  drop_silent-blockchain :
      (now : ℕ) (endpoints : List Text) (n : Node J D)
      → (drop_silent json now endpoints n).blockchain ≡ n.blockchain
  drop_silent-blockchain now [] n = refl
  drop_silent-blockchain now (e ∷ endpoints) n =
      drop_silent-blockchain now endpoints _ ∙ close_all-blockchain now e n.peers n

  pub drop_lowest-connections :
      (n : Node J D) → (drop_lowest n).connection_manager ≡ n.connection_manager
  unfolding drop_lowest
  drop_lowest-connections n = ground arith

  -- At the limit of inbound connections a new one is refused, although the connected peer with the
  -- lowest score is closed for it.
  pub accept_peer-full :
      (id : ℕ) (peer : Peer) (n : Node J D)
      → can_accept inbound n.connection_manager ≡ false
      → accept_peer json id peer n ≡ drop_lowest n
  unfolding accept_peer
  accept_peer-full id peer n full = rw (full, drop_lowest-connections n, full) refl

  accept_peer-free :
      (id : ℕ) (peer : Peer) (n : Node J D)
      → can_accept inbound n.connection_manager ≡ true
      → (accept_peer json id peer n).blockchain ≡ n.blockchain
  unfolding accept_peer send_node_announce send
  accept_peer-free id peer n free = rw (free, free) refl

  pub broadcast_block-blockchain :
      (block : Block) (n : Node J D) → (broadcast_block json P block n).blockchain ≡ n.blockchain
  unfolding broadcast_block
  broadcast_block-blockchain block n = elim (Bool-cases (contains block.hash n.seen_block_hashes)) [
    | inl seen ↦ rw seen refl
    | inr new ↦ rw new (broadcast-blockchain _ none _)
  ]

  pub Quiet-blockchain : {n after : Node J D} → Quiet n after → after.blockchain ≡ n.blockchain
  unfolding complete_dial send send_node_announce retry_connect connect_to_bootstrap_peers
      request_chain_from_peers gossip_round request_peers_from_all heartbeat_round
  Quiet-blockchain {n} (accepts id peer) =
      elim (Bool-cases (can_accept inbound n.connection_manager)) [
        | inl free ↦ accept_peer-free id peer n free
        | inr full ↦ rw (accept_peer-full id peer n full) (drop_lowest-blockchain n)
      ]
  Quiet-blockchain (connects clock id peer host port) = refl
  Quiet-blockchain {n} (retries now jitter host port retry_count) =
      elim (Bool-cases (leb n.options.max_retries retry_count)) [
        | inl last ↦ rw last refl
        | inr more ↦ rw more refl
      ]
  Quiet-blockchain {n} (bootstraps now) = connect_to_all-blockchain now _ n
  Quiet-blockchain {n} asks_for_chains = broadcast-blockchain _ none n
  Quiet-blockchain {n} (gossips clock) =
      expansion-blockchain shuffle clock.steady _ ∙ broadcast-blockchain _ none n
  Quiet-blockchain {n} (rotates now) = expansion-blockchain shuffle now n
  Quiet-blockchain {n} (beats clock) =
      let pinged = ping_all json clock.system (sweep json n).peers (sweep json n) in
      drop_silent-blockchain clock.steady
        (get_heartbeat_timeout_peers clock.system n.options.heartbeat_timeout_sec
          pinged.peer_scorer)
        pinged
      ∙ ping_all-blockchain clock.system (sweep json n).peers (sweep json n)
  Quiet-blockchain {n} (tells_transaction tx) = broadcast_transaction-blockchain json tx n
  Quiet-blockchain {n} (tells_block block) = broadcast_block-blockchain block n
