-- ===== src/Network/BootstrapManager.antt =====
-- src/network/bootstrap_manager.cpp and include/network/bootstrap_manager.h.
use personalblockchain.Prelude.{
  ℕ, ◌≡◌, not, ◌&&◌, ◌||◌, inl, inr, List, [], ◌∷◌, Text, is_empty, text_eq, length, take, ltb,
  if◌then◌else◌, arith, Bool-cases,
}
use personalblockchain.Prelude.Map.{Set, contains, add, contains-add}
use personalblockchain.Network.PeerManager.{is_among, push_new}
use personalblockchain.Network.PeerManager.Known.{
  AreDistinct, AreDistinct-push_new, is_among-push_new, is_empty-text_eq,
}

-- The hash set is kept in the order of its elements.
pub record BootstrapManager : Type 0 where
  pub bootstrap_peers : List Text
  pub topology_peers : Set

unfoldable pub add_bootstrap_peer : Text → BootstrapManager → BootstrapManager
add_bootstrap_peer peer bm = if is_empty peer then bm else record {
  bootstrap_peers = push_new peer bm.bootstrap_peers;
  topology_peers = add peer bm.topology_peers;
}

unfoldable pub add_bootstrap_peers : List Text → BootstrapManager → BootstrapManager
add_bootstrap_peers [] bm = bm
add_bootstrap_peers (peer ∷ peers) bm = add_bootstrap_peers peers (add_bootstrap_peer peer bm)

unfoldable pub set_bootstrap_peers : List Text → BootstrapManager → BootstrapManager
set_bootstrap_peers peers bm =
    add_bootstrap_peers peers (record { bootstrap_peers = []; topology_peers = [] })

unfoldable pub register_peer : Text → BootstrapManager → BootstrapManager
register_peer endpoint bm =
    if is_empty endpoint then bm else record bm { topology_peers = add endpoint bm.topology_peers }

-- The order in which the hash set is gone through is an argument.
unfoldable pub known_topology : (Set → List Text) → ℕ → BootstrapManager → List Text
known_topology listing max_count bm =
    let peers = listing bm.topology_peers in
    if ltb max_count (length peers) then take max_count peers else peers

add_bootstrap_peer-contains :
    (e p : Text) (bm : BootstrapManager)
    → (is_among e (add_bootstrap_peer p bm).bootstrap_peers
        ≡ (is_among e bm.bootstrap_peers || (not (is_empty e) && text_eq p e)))
      × (contains e (add_bootstrap_peer p bm).topology_peers
          ≡ (contains e bm.topology_peers || (not (is_empty e) && text_eq p e)))
unfolding add_bootstrap_peer
add_bootstrap_peer-contains e p bm = (
  ground (arith, is_among-push_new e p bm.bootstrap_peers, is_empty-text_eq p e),
  ground (arith, contains-add p e bm.topology_peers, is_empty-text_eq p e),
)

AreDistinct-add_bootstrap_peer :
    (p : Text) (bm : BootstrapManager)
    → AreDistinct bm.bootstrap_peers
    → AreDistinct (add_bootstrap_peer p bm).bootstrap_peers
unfolding add_bootstrap_peer
AreDistinct-add_bootstrap_peer p bm d = elim (Bool-cases (is_empty p)) [
  | inl nothing ↦ rw nothing d
  | inr named ↦ rw named (AreDistinct-push_new p bm.bootstrap_peers d)
]

add_bootstrap_peers-contains :
    (e : Text) (peers : List Text) (bm : BootstrapManager)
    → (is_among e (add_bootstrap_peers peers bm).bootstrap_peers
        ≡ (is_among e bm.bootstrap_peers || (not (is_empty e) && is_among e peers)))
      × (contains e (add_bootstrap_peers peers bm).topology_peers
          ≡ (contains e bm.topology_peers || (not (is_empty e) && is_among e peers)))
unfolding add_bootstrap_peers
add_bootstrap_peers-contains e [] bm = (ground arith, ground arith)
add_bootstrap_peers-contains e (p ∷ peers) bm =
    let (listed, known) = add_bootstrap_peers-contains e peers (add_bootstrap_peer p bm) in
    let (listed_here, known_here) = add_bootstrap_peer-contains e p bm in
    (ground (arith, listed, listed_here), ground (arith, known, known_here))

AreDistinct-add_bootstrap_peers :
    (peers : List Text) (bm : BootstrapManager)
    → AreDistinct bm.bootstrap_peers
    → AreDistinct (add_bootstrap_peers peers bm).bootstrap_peers
unfolding add_bootstrap_peers
AreDistinct-add_bootstrap_peers [] bm d = d
AreDistinct-add_bootstrap_peers (p ∷ peers) bm d =
    AreDistinct-add_bootstrap_peers peers (add_bootstrap_peer p bm)
      (AreDistinct-add_bootstrap_peer p bm d)

-- Setting the bootstrap peers forgets what was there: afterwards the bootstrap peers and the
-- topology both hold exactly the endpoints of the list, the empty one left out, and the bootstrap
-- peers hold each once.
set_bootstrap_peers-contains :
    (e : Text) (peers : List Text) (bm : BootstrapManager)
    → (is_among e (set_bootstrap_peers peers bm).bootstrap_peers
        ≡ (not (is_empty e) && is_among e peers))
      × (contains e (set_bootstrap_peers peers bm).topology_peers
          ≡ (not (is_empty e) && is_among e peers))
      × AreDistinct (set_bootstrap_peers peers bm).bootstrap_peers
unfolding set_bootstrap_peers contains
set_bootstrap_peers-contains e peers bm =
    let none_yet : BootstrapManager = record { bootstrap_peers = []; topology_peers = [] } in
    let (listed, known) = add_bootstrap_peers-contains e peers none_yet in
    (listed, known, AreDistinct-add_bootstrap_peers peers none_yet tt)
