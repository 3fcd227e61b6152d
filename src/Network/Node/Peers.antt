-- ===== src/Network/Node/Peers.antt =====
-- src/network/node.cpp and src/network/peer.cpp: the peers that a node is connected to.
use personalblockchain.Prelude.{
  ℕ, ◌+◌, ◌-◌, Bool, true, false, not, ◌&&◌, ◌||◌, Option, none, some, List, [], ◌∷◌, ◌++◌, map,
  Text, codes, text_eq, length, drop, keep, any, ltb, ◌==◌, if◌then◌else◌,
}
use personalblockchain.Prelude.Int.{ℤ}
use personalblockchain.Prelude.Map.{Set, contains, add}
use personalblockchain.Platform.{Platform}
use personalblockchain.Json.{Json}
use personalblockchain.Transaction.{Transaction}
use personalblockchain.Transaction.Serial
use personalblockchain.Block.{Block}
use personalblockchain.Block.Serial as BlockSerial
use personalblockchain.Network.Message.{Message, new_transaction, new_block}
use personalblockchain.Network.PeerScorer.{penalize_peer, reward_peer, get_score}
use personalblockchain.Network.PeerManager.{quarantine_peer}
use personalblockchain.Network.PeerManager.Endpoint.{make_endpoint}
use personalblockchain.Network.ConnectionManager.{unregister_connection}
use personalblockchain.Network.Node.{Peer, Node, Outcome, returns, deadlocks}

unfoldable pub get_endpoint : Peer → Text
get_endpoint peer =
    if peer.is_open
    then make_endpoint peer.address
        (if ltb 0 peer.known_listen_port then peer.known_listen_port else peer.remote_port)
    else codes "unknown"

unfoldable pub get_port : Peer → ℕ
get_port peer = if peer.is_open then peer.remote_port else 0

abbrev pub close : Peer → Peer
close peer = record peer { is_open = false }

abbrev drop_older : ℕ → List ℕ → List ℕ
drop_older now [] = []
drop_older now (t ∷ times) =
    let rest = drop_older now times in if ltb (t + 1_000_000_000) now then rest else t ∷ times

unfoldable pub is_rate_limited : ℕ → ℕ → Peer → Peer × Bool
is_rate_limited now max_per_second peer =
    let times = drop_older now (peer.message_times ++ now ∷ []) in
    (record peer { message_times = times }, ltb max_per_second (length times))

-- `insert`, and the loop that removes the first elements while there are more than the limit.
abbrev pub remember : ℕ → Text → Set → Set
remember limit id seen = let all_seen = add id seen in drop (length all_seen - limit) all_seen

-- The first peer with the endpoint.
abbrev pub find_peer : Text → (ℕ → Peer) → List ℕ → Option ℕ
find_peer endpoint sockets [] = none
find_peer endpoint sockets (i ∷ ids) =
    let later = find_peer endpoint sockets ids in
    if text_eq (get_endpoint (sockets i)) endpoint then some i else later

module _ {J : Type 0} {D : Type 0} where
  abbrev pub update_peer : ℕ → (Peer → Peer) → Node J D → Node J D
  update_peer id f n = record n { sockets = λ i. if i == id then f (n.sockets i) else n.sockets i }

  unfoldable pub get_peer_list : Node J D → List Text
  get_peer_list n =
      map (λ i. get_endpoint (n.sockets i)) (keep (λ i. (n.sockets i).is_open) n.peers)

  unfoldable pub connected_peer_scores : Node J D → List (Text × ℤ)
  connected_peer_scores n =
      map (λ endpoint. (endpoint, get_score endpoint n.peer_scorer)) (get_peer_list n)

  unfoldable pub is_already_connected : Text → ℕ → Node J D → Bool
  is_already_connected host port n =
      any
        (λ i.
          let peer = n.sockets i in
          peer.is_open
          && (text_eq (get_endpoint peer) (make_endpoint host port)
              || peer.known_listen_port == port
              || get_port peer == port))
        n.peers

  unfoldable pub send : ℕ → Message J → Node J D → Node J D
  send id msg n = record n { sent = n.sent ++ (id, msg) ∷ [] }

  abbrev pub send_to_all : List ℕ → Message J → Node J D → Node J D
  send_to_all [] msg n = n
  send_to_all (i ∷ ids) msg n = send_to_all ids msg (send i msg n)

  -- Every connected peer but the one, if there is one.
  abbrev pub receivers : Option ℕ → Node J D → List ℕ
  receivers exclude n =
      keep (λ i. not (elim exclude [ none ↦ false | some e ↦ i == e ]) && (n.sockets i).is_open)
        n.peers

  unfoldable pub broadcast : Message J → Option ℕ → Node J D → Node J D
  broadcast msg exclude n = send_to_all (receivers exclude n) msg n

  unfoldable pub broadcast_transaction : Json J → Transaction → Node J D → Node J D
  broadcast_transaction json tx n =
      if contains tx.tx_id n.seen_tx_ids
      then n
      else broadcast (record { type = new_transaction; payload = Serial.to_json json tx }) none
          (record n { seen_tx_ids = remember 10000 tx.tx_id n.seen_tx_ids })

  unfoldable pub broadcast_block : Json J → Platform → Block → Node J D → Node J D
  broadcast_block json P block n =
      if contains block.hash n.seen_block_hashes
      then n
      else broadcast (record { type = new_block; payload = BlockSerial.to_json json P block }) none
          (record n { seen_block_hashes = remember 1000 block.hash n.seen_block_hashes })

  -- The metrics are left out. The call asks for `peersMutex_`, which is not recursive.
  unfoldable pub refresh_metrics : Bool → Node J D → Outcome (Node J D)
  refresh_metrics peers_mutex_held n = if peers_mutex_held then deadlocks else returns n

  unfoldable pub penalize_peer_by_endpoint : ℕ → Text → ℤ → Node J D → Node J D
  penalize_peer_by_endpoint now endpoint penalty n =
      let (scores, banned) = penalize_peer endpoint penalty n.peer_scorer in
      let scored = record n { peer_scorer = scores } in
      if banned
      then elim (find_peer endpoint n.sockets n.peers) [
        | none ↦ scored
        | some id ↦ record (update_peer id close scored) {
          peer_manager = quarantine_peer now endpoint n.options.quarantine_sec n.peer_manager;
          connection_manager = unregister_connection endpoint n.connection_manager;
        }
      ]
      else scored

  unfoldable pub reward_peer_by_endpoint : Text → ℤ → Node J D → Node J D
  reward_peer_by_endpoint endpoint points n = record n {
    peer_scorer = reward_peer endpoint points n.peer_scorer;
  }

  -- The last call is made under the lock of `peersMutex_`.
  unfoldable pub remove_peer : ℕ → ℕ → Bool → Node J D → Outcome (Node J D)
  remove_peer now id quarantine n =
      let endpoint = get_endpoint (n.sockets id) in
      refresh_metrics true (record n {
        peer_manager =
            if quarantine
            then quarantine_peer now endpoint n.options.quarantine_sec n.peer_manager
            else n.peer_manager;
        connection_manager = unregister_connection endpoint n.connection_manager;
        peers = keep (λ i. not (i == id || not (n.sockets i).is_open)) n.peers;
      })
