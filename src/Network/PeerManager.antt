-- ===== src/Network/PeerManager.antt =====
-- src/network/peer_manager.cpp and include/network/peer_manager.h. The two hash maps are kept in the
-- order of their keys, which no call shows. Clocks are in nanoseconds; the steady clock does not go
-- back, so the difference of two readings is taken in natural numbers.
pub mod Endpoint
pub mod Known
use personalblockchain.Prelude.{
  ℕ, ◌+◌, ◌-◌, ◌*◌, ◌/◌, Bool, true, false, not, ◌&&◌, ◌||◌, Option, none, some, List, [], ◌∷◌,
  ◌++◌, Text, is_empty, text_eq, length, take, any, keep, ltb, leb, if◌then◌else◌,
}
use personalblockchain.Prelude.Map.{Map, lookup, insert}

pub record PeerManager : Type 0 where
  pub known_peers : List Text
  pub last_dial_attempt : Map ℕ
  pub quarantined_until : Map ℕ

abbrev pub empty_manager : PeerManager
empty_manager = record { known_peers = []; last_dial_attempt = []; quarantined_until = [] }

-- `std::find` over a vector of endpoints.
abbrev pub is_among : Text → List Text → Bool
is_among endpoint peers = any (λ p. text_eq p endpoint) peers

-- `push_back` unless the endpoint is there.
abbrev pub push_new : Text → List Text → List Text
push_new endpoint peers = if is_among endpoint peers then peers else peers ++ endpoint ∷ []

unfoldable pub add_known_peer : Text → PeerManager → PeerManager
add_known_peer endpoint pm =
    if is_empty endpoint then pm else record pm { known_peers = push_new endpoint pm.known_peers }

unfoldable pub merged : List Text → List Text → List Text
merged [] known = known
merged (peer ∷ peers) known =
    if is_empty peer then merged peers known else merged peers (push_new peer known)

unfoldable pub merge_known_peers : List Text → PeerManager → PeerManager
merge_known_peers peers pm = record pm { known_peers = merged peers pm.known_peers }

unfoldable pub has_peer : Text → PeerManager → Bool
has_peer endpoint pm = is_among endpoint pm.known_peers

-- `isQuarantinedUnlocked`
unfoldable pub is_quarantined : ℕ → Text → PeerManager → Bool
is_quarantined now endpoint pm = elim (lookup endpoint pm.quarantined_until) [
  | none ↦ false
  | some until ↦ ltb now until
]

-- The shuffle is an argument.
unfoldable pub get_random_peers :
    (List Text → List Text) → ℕ → ℕ → List Text → PeerManager → List Text
get_random_peers shuffle now max_count exclude pm =
    let candidates =
      shuffle
        (keep (λ p. not (is_among p exclude) && not (is_quarantined now p pm)) pm.known_peers) in
    if ltb max_count (length candidates) then take max_count candidates else candidates

unfoldable pub should_attempt_connection : ℕ → Text → ℕ → PeerManager → Bool
should_attempt_connection now endpoint cooldown_ms pm =
    if is_quarantined now endpoint pm then false else elim (lookup endpoint pm.last_dial_attempt) [
      | none ↦ true
      | some dialed ↦ leb cooldown_ms ((now - dialed) / 1_000_000)
    ]

unfoldable pub mark_dial_attempt : ℕ → Text → PeerManager → PeerManager
mark_dial_attempt now endpoint pm = record pm {
  last_dial_attempt = insert endpoint now pm.last_dial_attempt;
}

unfoldable pub quarantine_peer : ℕ → Text → ℕ → PeerManager → PeerManager
quarantine_peer now endpoint seconds pm = record pm {
  quarantined_until = insert endpoint (now + seconds * 1_000_000_000) pm.quarantined_until;
}

abbrev count_later : ℕ → Map ℕ → ℕ
count_later now [] = 0
count_later now ((endpoint, until) ∷ m) =
    let count = count_later now m in if ltb now until then count + 1 else count

unfoldable pub quarantined_peer_count : ℕ → PeerManager → ℕ
quarantined_peer_count now pm = count_later now pm.quarantined_until
