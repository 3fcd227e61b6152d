-- ===== src/Network/ConnectionManager.antt =====
-- src/network/connection_manager.cpp and include/network/connection_manager.h. The hash map is kept
-- in the order of its keys, which no call shows.
pub mod Slots
use personalblockchain.Prelude.{
  ℕ, suc, ◌+◌, Bool, true, false, List, [], ◌∷◌, Text, length, ltb, if◌then◌else◌,
}
use personalblockchain.Prelude.Int.{ℤ, ltb_ℤ}
use personalblockchain.Prelude.Map.{Map, insert, erase}

pub data ConnectionDirection : Type 0 where
  inbound : ConnectionDirection
  outbound : ConnectionDirection

abbrev pub same_direction : ConnectionDirection → ConnectionDirection → Bool
same_direction inbound inbound = true
same_direction outbound outbound = true
same_direction inbound outbound = false
same_direction outbound inbound = false

pub record ConnectionManager : Type 0 where
  pub peers : Map ConnectionDirection
  pub max_outbound_peers : ℕ
  pub max_inbound_peers : ℕ

abbrev pub new_manager : ℕ → ℕ → ConnectionManager
new_manager max_outbound_peers max_inbound_peers = record {
  peers = [];
  max_outbound_peers = max_outbound_peers;
  max_inbound_peers = max_inbound_peers;
}

-- The counting loop of the three calls.
abbrev pub count_of : ConnectionDirection → Map ConnectionDirection → ℕ
count_of direction [] = 0
count_of direction ((endpoint, d) ∷ m) =
    let count = count_of direction m in if same_direction d direction then suc count else count

unfoldable pub inbound_count : ConnectionManager → ℕ
inbound_count cm = count_of inbound cm.peers

unfoldable pub outbound_count : ConnectionManager → ℕ
outbound_count cm = count_of outbound cm.peers

unfoldable total_count : ConnectionManager → ℕ
total_count cm = length cm.peers

unfoldable pub can_accept : ConnectionDirection → ConnectionManager → Bool
can_accept inbound cm = ltb (count_of inbound cm.peers) cm.max_inbound_peers
can_accept outbound cm = ltb (count_of outbound cm.peers) cm.max_outbound_peers

unfoldable pub register_connection :
    Text → ConnectionDirection → ConnectionManager → ConnectionManager
register_connection endpoint direction cm = record cm { peers = insert endpoint direction cm.peers }

unfoldable pub unregister_connection : Text → ConnectionManager → ConnectionManager
unregister_connection endpoint cm = record cm { peers = erase endpoint cm.peers }

-- `std::min_element`, which returns the first of the smallest.
abbrev pub lowest : Text × ℤ → List (Text × ℤ) → Text × ℤ
lowest best [] = best
lowest best (s ∷ scores) =
    let left = lowest best scores in
    let right = lowest s scores in if ltb_ℤ s.1 best.1 then right else left

unfoldable pub select_lowest_score_peer_to_drop : List (Text × ℤ) → Text
select_lowest_score_peer_to_drop [] = []
select_lowest_score_peer_to_drop (s ∷ scores) = (lowest s scores).0
