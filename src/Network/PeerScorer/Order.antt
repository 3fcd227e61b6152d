-- ===== src/Network/PeerScorer/Order.antt =====
-- src/network/peer_scorer.cpp: the map of peers stays in the order of its keys.
use personalblockchain.Prelude.{ℕ, [], ◌∷◌, Text, Bool-cases, Option-cases, inl, inr}
use personalblockchain.Prelude.Int.{ℤ}
use personalblockchain.Prelude.Map.{lookup}
use personalblockchain.Prelude.Map.Sorted.{Above, IsSorted, insert-IsSorted, Above-trans}
use personalblockchain.Network.PeerScorer.{
  PeerInfo, Peers, update, peer_key, new_peer, add_peer, reward_peer, penalize, penalize_peer,
  mark_seen, mark_ping_sent, mark_pong_received, evict_stale_peers, is_stale,
}
use personalblockchain.Network.PeerScorer.Fairness.{
  Step, adds, rewards, penalizes, sees, pings, pongs, evicts, Reach, starts, steps,
}

update-IsSorted :
    (key : Text) (f : PeerInfo → PeerInfo) (peers : Peers)
    → IsSorted peers
    → IsSorted (update key f peers)
update-IsSorted key f peers s = elim (Option-cases (lookup key peers)) [
  | inl missing ↦ rw (missing, IsSorted) s
  | inr (p, found) ↦ rw (found, IsSorted) (insert-IsSorted key (f p) peers s)
]

evict_stale_peers-Above :
    (now stale : ℕ) (key : Text) (peers : Peers)
    → IsSorted peers
    → Above key peers
    → Above key (evict_stale_peers now stale peers)
unfolding evict_stale_peers
evict_stale_peers-Above now stale key [] s a = tt
evict_stale_peers-Above now stale key ((j, p) ∷ peers) s a =
    elim (Bool-cases (is_stale now stale p)) [
      | inl gone ↦
          rw (gone, Above)
            (evict_stale_peers-Above now stale key peers s.1 (Above-trans key j peers a s.0))
      | inr kept ↦ rw (kept, Above) a
    ]

evict_stale_peers-IsSorted :
    (now stale : ℕ) (peers : Peers) → IsSorted peers → IsSorted (evict_stale_peers now stale peers)
unfolding evict_stale_peers
evict_stale_peers-IsSorted now stale [] s = tt
evict_stale_peers-IsSorted now stale ((j, p) ∷ peers) s =
    let rest = evict_stale_peers-IsSorted now stale peers s.1 in
    elim (Bool-cases (is_stale now stale p)) [
      | inl gone ↦ rw (gone, IsSorted) rest
      | inr kept ↦ rw (kept, IsSorted) (evict_stale_peers-Above now stale j peers s.1 s.0, rest)
    ]

add_peer-IsSorted :
    (now : ℕ) (host : Text) (port : ℕ) (peers : Peers)
    → IsSorted peers
    → IsSorted (add_peer now host port peers)
unfolding add_peer
add_peer-IsSorted now host port peers s = elim (Option-cases (lookup (peer_key host port) peers)) [
  | inl missing ↦
      rw (missing, IsSorted) (insert-IsSorted (peer_key host port) (new_peer now host port) peers s)
  | inr (p, found) ↦ rw (found, IsSorted) s
]

penalize_peer-IsSorted :
    (key : Text) (penalty : ℤ) (peers : Peers)
    → IsSorted peers
    → IsSorted (penalize_peer key penalty peers).0
unfolding penalize_peer
penalize_peer-IsSorted key penalty peers s = elim (Option-cases (lookup key peers)) [
  | inl missing ↦ rw (missing, IsSorted) s
  | inr (p, found) ↦ rw (found, IsSorted) (insert-IsSorted key (penalize penalty p) peers s)
]

Step-IsSorted : {peers after : Peers} → Step peers after → IsSorted peers → IsSorted after
unfolding reward_peer mark_seen mark_ping_sent mark_pong_received
Step-IsSorted {peers} (adds now host port) s = add_peer-IsSorted now host port peers s
Step-IsSorted {peers} (rewards key amount up) s = update-IsSorted key _ peers s
Step-IsSorted {peers} (penalizes key penalty down) s = penalize_peer-IsSorted key penalty peers s
Step-IsSorted {peers} (sees now key) s = update-IsSorted key _ peers s
Step-IsSorted {peers} (pings now key) s = update-IsSorted key _ peers s
Step-IsSorted {peers} (pongs now key) s = update-IsSorted key _ peers s
Step-IsSorted {peers} (evicts now stale) s = evict_stale_peers-IsSorted now stale peers s

pub Reach-IsSorted : {peers : Peers} → Reach peers → IsSorted peers
Reach-IsSorted starts = tt
Reach-IsSorted (steps r s) = Step-IsSorted s (Reach-IsSorted r)
