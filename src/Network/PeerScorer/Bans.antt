-- ===== src/Network/PeerScorer/Bans.antt =====
-- src/network/peer_scorer.cpp: when a ban starts and when it ends.
use personalblockchain.Prelude.{◌≡◌, not, ◌&&◌, ◌||◌, Text, arith, Option-cases, inl, inr}
use personalblockchain.Prelude.Int.{ℤ, pos, ltb_ℤ, +ℤ_parts}
use personalblockchain.Prelude.Map.{lookup, lookup-insert_self}
use personalblockchain.Network.PeerScorer.{
  Peers, reward, reward_peer, penalize, penalize_peer, is_banned, get_score,
}

-- After a penalty a peer is banned exactly when the call answers yes or the peer was banned
-- before.
is_banned-penalize_peer :
    (key : Text) (penalty : ℤ) (peers : Peers)
    → is_banned key (penalize_peer key penalty peers).0
      ≡ ((penalize_peer key penalty peers).1 || is_banned key peers)
unfolding is_banned penalize_peer penalize
is_banned-penalize_peer key penalty peers = elim (Option-cases (lookup key peers)) [
  | inl missing ↦ ground arith
  | inr (p, found) ↦ ground (arith, lookup-insert_self key (penalize penalty p) peers)
]

-- After a reward a peer is banned exactly when it was and its score is still not above 20.
is_banned-reward_peer :
    (key : Text) (amount : ℤ) (peers : Peers)
    → is_banned key (reward_peer key amount peers)
      ≡ (is_banned key peers && not (ltb_ℤ (pos 20) (get_score key (reward_peer key amount peers))))
unfolding is_banned get_score reward_peer reward
is_banned-reward_peer key amount peers = elim (Option-cases (lookup key peers)) [
  | inl missing ↦ ground arith
  | inr (p, found) ↦
      let limit = +ℤ_parts (pos 0) (pos 20) in
      ground (arith, lookup-insert_self key (reward amount p) peers)
]
