-- ===== src/Network/PeerScorer/Fairness.antt =====
-- src/network/peer_scorer.cpp: bans and scores agree, whatever is reported of peers and when.
use personalblockchain.Prelude.{
  ℕ, ◌≡◌, refl, ◌∙◌, true, some, [], ◌∷◌, Text, text_eq, arith, Option-cases, inl, inr, Bool-cases,
}
use personalblockchain.Prelude.Int.{ℤ, pos, ◌+ℤ◌, ◌≤ℤ◌, +ℤ_parts}
use personalblockchain.Prelude.Map.{lookup, insert}
use personalblockchain.Network.PeerScorer.{
  PeerInfo, Peers, update, peer_key, new_peer, add_peer, reward, reward_peer, penalized_score,
  penalize, penalize_peer, mark_seen, ping, mark_ping_sent, mark_pong_received, evict_stale_peers,
  penalty_rapid_misbehavior, is_banned, get_score,
}

-- The score is at most 200, and a peer with a score of 0 or less is banned.
record IsFair (p : PeerInfo) : Type 0 where
  pub capped : p.score ≤ℤ pos 200
  pub punished : p.score ≤ℤ pos 0 → p.banned ≡ true

abbrev AreFair : Peers → Type 0
AreFair [] = Unit {0}
AreFair ((key, p) ∷ peers) = IsFair p × AreFair peers

new_peer-IsFair : (now : ℕ) (host : Text) (port : ℕ) → IsFair (new_peer now host port)
unfolding new_peer
new_peer-IsFair now host port = record {
  capped = omega arith;
  punished = λ h. absurd (omega arith);
}

reward-IsFair : (amount : ℤ) (p : PeerInfo) → pos 0 ≤ℤ amount → IsFair p → IsFair (reward amount p)
unfolding reward
reward-IsFair amount p up v =
    let sum = +ℤ_parts p.score amount in
    let limit = +ℤ_parts (pos 0) (pos 20) in
    let old = v.punished in record { capped = ground arith; punished = λ h. ground arith }

penalized_score_le :
    (penalty : ℤ) (p : PeerInfo) → penalty ≤ℤ pos 0 → penalized_score penalty p ≤ℤ p.score
unfolding penalized_score
penalized_score_le penalty p down =
    let sum = +ℤ_parts p.score penalty in
    let rapid = +ℤ_parts (p.score +ℤ penalty) penalty_rapid_misbehavior in ground arith

penalize-IsFair :
    (penalty : ℤ) (p : PeerInfo) → penalty ≤ℤ pos 0 → IsFair p → IsFair (penalize penalty p)
unfolding penalize
penalize-IsFair penalty p down v =
    let le = penalized_score_le penalty p down in
    let cap = v.capped in record { capped = omega arith; punished = λ h. ground arith }

AreFair-lookup :
    (key : Text) (peers : Peers) (p : PeerInfo)
    → AreFair peers
    → lookup key peers ≡ some p
    → IsFair p
unfolding lookup
AreFair-lookup key [] p v e = cc
AreFair-lookup key ((j, q) ∷ peers) p v e = elim (Bool-cases (text_eq j key)) [
  | inl same ↦ let found : q ≡ p = ground arith in rw (← found) (v.0)
  | inr other ↦ AreFair-lookup key peers p v.1 (ground arith)
]

insert-AreFair :
    (key : Text) (p : PeerInfo) (peers : Peers)
    → IsFair p
    → AreFair peers
    → AreFair (insert key p peers)
unfolding insert
insert-AreFair key p [] h v = (h, tt)
insert-AreFair key p ((j, q) ∷ peers) h v = ground (arith, insert-AreFair key p peers h v.1)

update-AreFair :
    (key : Text) (f : PeerInfo → PeerInfo) (peers : Peers)
    → ((p : PeerInfo) → IsFair p → IsFair (f p))
    → AreFair peers
    → AreFair (update key f peers)
update-AreFair key f peers h v = elim (Option-cases (lookup key peers)) [
  | inl missing ↦ rw (missing, AreFair) v
  | inr (p, found) ↦
      rw (found, AreFair)
        (insert-AreFair key (f p) peers (h p (AreFair-lookup key peers p v found)) v)
]

evict_stale_peers-AreFair :
    (now stale : ℕ) (peers : Peers) → AreFair peers → AreFair (evict_stale_peers now stale peers)
unfolding evict_stale_peers
evict_stale_peers-AreFair now stale [] v = tt
evict_stale_peers-AreFair now stale ((key, p) ∷ peers) v =
    ground (arith, evict_stale_peers-AreFair now stale peers v.1)

add_peer-AreFair :
    (now : ℕ) (host : Text) (port : ℕ) (peers : Peers)
    → AreFair peers
    → AreFair (add_peer now host port peers)
unfolding add_peer
add_peer-AreFair now host port peers v = elim (Option-cases (lookup (peer_key host port) peers)) [
  | inl missing ↦
      rw (missing, AreFair)
        (insert-AreFair (peer_key host port) _ peers (new_peer-IsFair now host port) v)
  | inr (p, found) ↦ rw (found, AreFair) v
]

penalize_peer-AreFair :
    (key : Text) (penalty : ℤ) (peers : Peers)
    → penalty ≤ℤ pos 0
    → AreFair peers
    → AreFair (penalize_peer key penalty peers).0
unfolding penalize_peer
penalize_peer-AreFair key penalty peers down v = elim (Option-cases (lookup key peers)) [
  | inl missing ↦ rw (missing, AreFair) v
  | inr (p, found) ↦
      rw (found, AreFair)
        (insert-AreFair key (penalize penalty p) peers
          (penalize-IsFair penalty p down (AreFair-lookup key peers p v found)) v)
]

-- One call, with rewards that are not negative and penalties that are not positive.
pub data Step (peers : Peers) : Peers → Type 0 where
  adds : (now : ℕ) (host : Text) (port : ℕ) → Step peers (add_peer now host port peers)
  rewards : (key : Text) (amount : ℤ) → pos 0 ≤ℤ amount → Step peers (reward_peer key amount peers)
  penalizes :
      (key : Text) (penalty : ℤ) → penalty ≤ℤ pos 0 → Step peers (penalize_peer key penalty peers).0
  sees : (now : ℕ) (key : Text) → Step peers (mark_seen now key peers)
  pings : (now : ℕ) (key : Text) → Step peers (mark_ping_sent now key peers)
  pongs : (now : ℕ) (key : Text) → Step peers (mark_pong_received now key peers)
  evicts : (now stale : ℕ) → Step peers (evict_stale_peers now stale peers)

pub data Reach : Peers → Type 0 where
  starts : Reach []
  steps : {peers after : Peers} → Reach peers → Step peers after → Reach after

same_score : (p q : PeerInfo) → q.score ≡ p.score → q.banned ≡ p.banned → IsFair p → IsFair q
same_score p q s b v = record {
  capped = rw s (v.capped);
  punished = λ h. b ∙ v.punished (rw s at h);
}

ping-IsFair : (now : ℕ) (p : PeerInfo) → IsFair p → IsFair (ping now p)
unfolding ping
ping-IsFair now p v = elim (Bool-cases p.pending_pong) [
  | inl waiting ↦ rw waiting (same_score p _ refl refl v)
  | inr free ↦ rw free (same_score p _ refl refl v)
]

Step-AreFair : {peers after : Peers} → Step peers after → AreFair peers → AreFair after
unfolding reward_peer mark_seen mark_ping_sent mark_pong_received
Step-AreFair {peers} (adds now host port) v = add_peer-AreFair now host port peers v
Step-AreFair {peers} (rewards key amount up) v =
    update-AreFair key (reward amount) peers (λ p h. reward-IsFair amount p up h) v
Step-AreFair {peers} (penalizes key penalty down) v = penalize_peer-AreFair key penalty peers down v
Step-AreFair {peers} (sees now key) v =
    update-AreFair key _ peers (λ p h. same_score p _ refl refl h) v
Step-AreFair {peers} (pings now key) v = update-AreFair key _ peers (λ p h. ping-IsFair now p h) v
Step-AreFair {peers} (pongs now key) v =
    update-AreFair key _ peers (λ p h. same_score p _ refl refl h) v
Step-AreFair {peers} (evicts now stale) v = evict_stale_peers-AreFair now stale peers v

Reach-AreFair : {peers : Peers} → Reach peers → AreFair peers
Reach-AreFair starts = tt
Reach-AreFair (steps r s) = Step-AreFair s (Reach-AreFair r)

-- After any history of calls, with rewards that are not negative and penalties that are not
-- positive, a known peer with a score of 0 or less is banned, and no score is above 200.
Reach-is_banned :
    {peers : Peers}
    → Reach peers
    → (key : Text) (p : PeerInfo) → lookup key peers ≡ some p
    → (get_score key peers ≤ℤ pos 200) × (get_score key peers ≤ℤ pos 0 → is_banned key peers ≡ true)
unfolding get_score is_banned
Reach-is_banned {peers} r key p found =
    let v = AreFair-lookup key peers p (Reach-AreFair r) found in
    rw (found, get_score, is_banned) (v.capped, v.punished)
