-- ===== src/Network/Node/Limits.antt =====
-- The limit on the connections that come in to a node (`doAccept` of src/network/node.cpp).
use personalblockchain.Prelude.{
  ℕ, ◌≤◌, ◌≡◌, refl, inl, inr, List, [], ◌∷◌, true, arith, ltb→lt, Bool-cases,
}
use personalblockchain.Platform.{Platform}
use personalblockchain.Json.{Json}
use personalblockchain.Network.ConnectionManager.{
  inbound, inbound_count, can_accept, register_connection, count_of,
}
use personalblockchain.Network.ConnectionManager.Slots.{count_of-insert}
use personalblockchain.Network.Node.{Peer, Node}
use personalblockchain.Network.Node.Peers.{get_endpoint, send}
use personalblockchain.Network.Node.Timers.{accept_peer, send_node_announce}
use personalblockchain.Network.Node.Quiet.{drop_lowest-connections, accept_peer-full}

module _ {J : Type 0} {D : Type 0} (json : Json J) (P : Platform) where
  -- The inbound connections are at most as many as the limit, which is `max_inbound`.
  pub record IsWithin (max_inbound : ℕ) (n : Node J D) : Type 0 where
    pub limit : n.connection_manager.max_inbound_peers ≡ max_inbound
    pub within : inbound_count n.connection_manager ≤ max_inbound

  accept_peer-registers :
      (id : ℕ) (peer : Peer) (n : Node J D)
      → can_accept inbound n.connection_manager ≡ true
      → (accept_peer json id peer n).connection_manager
        ≡ register_connection (get_endpoint peer) inbound n.connection_manager
  unfolding accept_peer send_node_announce send
  accept_peer-registers id peer n free = rw (free, free) refl

  accept_peer-IsWithin :
      (max_inbound id : ℕ) (peer : Peer) (n : Node J D)
      → IsWithin max_inbound n
      → IsWithin max_inbound (accept_peer json id peer n)
  unfolding inbound_count can_accept register_connection
  accept_peer-IsWithin max_inbound id peer n h =
      elim (Bool-cases (can_accept inbound n.connection_manager)) [
        | inl free ↦
            let room =
              ltb→lt (count_of inbound n.connection_manager.peers)
                n.connection_manager.max_inbound_peers free in
            let registered = accept_peer-registers id peer n free in
            let one_more =
              count_of-insert inbound (get_endpoint peer) inbound n.connection_manager.peers in
            record {
              limit = rw registered h.limit;
              within = rw registered (omega (arith, room, h.limit, one_more));
            }
        | inr full ↦
            let refused = accept_peer-full json P (λ xs. xs) id peer n full in
            let kept = drop_lowest-connections json P (λ xs. xs) n in
            record { limit = rw (refused, kept) h.limit; within = rw (refused, kept) h.within }
      ]

  -- Connections that come in one behind the other.
  abbrev pub accept_all : List (ℕ × Peer) → Node J D → Node J D
  accept_all [] n = n
  accept_all ((id, peer) ∷ arrivals) n = accept_all arrivals (accept_peer json id peer n)

  -- However many connections come in to a node whose inbound connections are within its limit, they
  -- stay within it, and the limit stays as it is.
  pub accept_all-IsWithin :
      (max_inbound : ℕ) (arrivals : List (ℕ × Peer)) (n : Node J D)
      → IsWithin max_inbound n
      → IsWithin max_inbound (accept_all arrivals n)
  accept_all-IsWithin max_inbound [] n h = h
  accept_all-IsWithin max_inbound ((id, peer) ∷ arrivals) n h =
      accept_all-IsWithin max_inbound arrivals (accept_peer json id peer n)
        (accept_peer-IsWithin max_inbound id peer n h)
