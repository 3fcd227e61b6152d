-- ===== src/Network/PeerScorer/Sharing.antt =====
-- src/network/peer_scorer.cpp: which peers are shared, timed out and evicted.
use personalblockchain.Prelude.{
  ℕ, ◌≡◌, refl, Bool, false, not, ◌&&◌, none, some, [], ◌∷◌, Text, text_eq_iff, arith,
  if◌then◌else◌, Option-cases, inl, inr,
}
use personalblockchain.Prelude.Int.{pos, ltb_ℤ}
use personalblockchain.Prelude.Map.{lookup, contains}
use personalblockchain.Prelude.Map.Sorted.{IsSorted, lookup-Above}
use personalblockchain.Network.PeerScorer.Fairness.{Reach}
use personalblockchain.Network.PeerScorer.Order.{Reach-IsSorted}
use personalblockchain.Network.PeerScorer.{
  PeerInfo, Peers, keys_where, is_shareable, get_shareable_peers, is_overdue,
  get_heartbeat_timeout_peers, is_stale, evict_stale_peers, is_banned, get_score,
}

-- A test of a peer, false where it is not known.
abbrev pub holds : (PeerInfo → Bool) → Text → Peers → Bool
holds test key peers = elim (lookup key peers) [ none ↦ false | some p ↦ test p ]

contains-keys_where :
    (test : PeerInfo → Bool) (key : Text) (peers : Peers)
    → IsSorted peers
    → contains key (keys_where test peers) ≡ holds test key peers
unfolding contains keys_where lookup
contains-keys_where test key [] s = refl
contains-keys_where test key ((j, q) ∷ peers) s =
    ground
      (arith, text_eq_iff j key, lookup-Above key peers s.1, contains-keys_where test key peers s.1)

lookup-evict_sorted :
    (now stale : ℕ) (key : Text) (peers : Peers)
    → IsSorted peers
    → lookup key (evict_stale_peers now stale peers)
      ≡ (if holds (is_stale now stale) key peers then none else lookup key peers)
unfolding lookup evict_stale_peers
lookup-evict_sorted now stale key [] s = refl
lookup-evict_sorted now stale key ((j, q) ∷ peers) s = ground (
  arith,
  text_eq_iff j key,
  lookup-Above key peers s.1,
  lookup-evict_sorted now stale key peers s.1,
)

-- After any history of calls, with rewards that are not negative and penalties that are not
-- positive, a key is shared with other nodes exactly when its peer is not banned and its score is
-- above 20.
contains-get_shareable_peers :
    {peers : Peers}
    → Reach peers
    → (key : Text)
    → contains key (get_shareable_peers peers)
      ≡ (not (is_banned key peers) && ltb_ℤ (pos 20) (get_score key peers))
unfolding get_shareable_peers is_banned get_score
contains-get_shareable_peers {peers} r key =
    let listed = contains-keys_where is_shareable key peers (Reach-IsSorted r) in
    elim (Option-cases (lookup key peers)) [
      | inl missing ↦ ground arith
      | inr (p, found) ↦ ground arith
    ]

-- After any history of calls, with rewards that are not negative and penalties that are not
-- positive, a key times out exactly when its peer is known, owes an answer to a ping, and was sent
-- that ping longer ago than the timeout.
contains-get_heartbeat_timeout_peers :
    {peers : Peers}
    → Reach peers
    → (now timeout : ℕ) (key : Text)
    → contains key (get_heartbeat_timeout_peers now timeout peers)
      ≡ holds (is_overdue now timeout) key peers
unfolding get_heartbeat_timeout_peers
contains-get_heartbeat_timeout_peers {peers} r now timeout key =
    contains-keys_where (is_overdue now timeout) key peers (Reach-IsSorted r)

-- After any history of calls, with rewards that are not negative and penalties that are not
-- positive, eviction forgets exactly the peers that were seen longer ago than the threshold, and
-- leaves the others as they are.
lookup-evict_stale_peers :
    {peers : Peers}
    → Reach peers
    → (now stale : ℕ) (key : Text)
    → lookup key (evict_stale_peers now stale peers)
      ≡ (if holds (is_stale now stale) key peers then none else lookup key peers)
lookup-evict_stale_peers {peers} r now stale key =
    lookup-evict_sorted now stale key peers (Reach-IsSorted r)
