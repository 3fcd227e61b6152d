-- ===== src/Network/PeerScorer.antt =====
-- src/network/peer_scorer.cpp and include/network/peer_scorer.h: the reputation of peers. The
-- readings of `steady_clock` are arguments, in nanoseconds. Scores are `int32_t` and counts of
-- offences never near its bounds; overflow, which C++ leaves undefined, is left out.
pub mod Fairness
pub mod Order
pub mod Sharing
pub mod Bans
use personalblockchain.Prelude.{
  ℕ, suc, ◌+◌, ◌*◌, Bool, true, false, not, ◌&&◌, Option, none, some, List, [], ◌∷◌, ◌++◌, Text,
  decimal, ltb, ◌==◌, if◌then◌else◌,
}
use personalblockchain.Prelude.Int.{ℤ, pos, negsuc, ◌+ℤ◌, ltb_ℤ, leb_ℤ}
use personalblockchain.Prelude.Map.{Map, lookup, insert}

pub record PeerInfo : Type 0 where
  pub host : Text
  pub port : ℕ
  pub score : ℤ
  pub banned : Bool
  pub invalid_block_count : ℕ
  pub last_seen : ℕ
  pub last_ping_sent : ℕ
  pub pending_pong : Bool

abbrev initial_score : ℤ
initial_score = pos 100

abbrev ban_threshold : ℤ
ban_threshold = pos 0

-- -10
abbrev pub penalty_invalid_block : ℤ
penalty_invalid_block = negsuc 9

-- -20
abbrev pub penalty_rapid_misbehavior : ℤ
penalty_rapid_misbehavior = negsuc 19

abbrev pub nanoseconds : ℕ → ℕ
nanoseconds seconds = seconds * 1_000_000_000

-- The registered peers, by "host:port".
abbrev pub Peers : Type 0
Peers = Map PeerInfo

abbrev pub peer_key : Text → ℕ → Text
peer_key host port = host ++ b':' ∷ decimal port

-- `it->second = f(it->second)` where the peer is known.
abbrev pub update : Text → (PeerInfo → PeerInfo) → Peers → Peers
update key f peers = elim (lookup key peers) [ none ↦ peers | some p ↦ insert key (f p) peers ]

unfoldable pub new_peer : ℕ → Text → ℕ → PeerInfo
new_peer now host port = record {
  host = host;
  port = port;
  score = initial_score;
  banned = false;
  invalid_block_count = 0;
  last_seen = now;
  last_ping_sent = 0;
  pending_pong = false;
}

unfoldable pub add_peer : ℕ → Text → ℕ → Peers → Peers
add_peer now host port peers = elim (lookup (peer_key host port) peers) [
  | none ↦ insert (peer_key host port) (new_peer now host port) peers
  | some p ↦ peers
]

unfoldable pub reward : ℤ → PeerInfo → PeerInfo
reward amount p =
    let raised = p.score +ℤ amount in
    let score = if ltb_ℤ (pos 200) raised then pos 200 else raised in
    if p.banned && ltb_ℤ (ban_threshold +ℤ pos 20) score
    then record p { score = score; banned = false; invalid_block_count = 0 }
    else record p { score = score }

unfoldable pub reward_peer : Text → ℤ → Peers → Peers
reward_peer key amount peers = update key (reward amount) peers

-- `penalty == PENALTY_INVALID_BLOCK`
abbrev is_invalid_block : ℤ → Bool
is_invalid_block penalty =
    leb_ℤ penalty penalty_invalid_block && leb_ℤ penalty_invalid_block penalty

-- The score after a penalty: the third invalid block costs more.
unfoldable pub penalized_score : ℤ → PeerInfo → ℤ
penalized_score penalty p =
    if is_invalid_block penalty && (p.invalid_block_count + 1 == 3)
    then p.score +ℤ penalty +ℤ penalty_rapid_misbehavior
    else p.score +ℤ penalty

unfoldable pub penalize : ℤ → PeerInfo → PeerInfo
penalize penalty p = record p {
  score = penalized_score penalty p;
  banned = if leb_ℤ (penalized_score penalty p) ban_threshold then true else p.banned;
  invalid_block_count =
      if is_invalid_block penalty then p.invalid_block_count + 1 else p.invalid_block_count;
}

unfoldable pub penalize_peer : Text → ℤ → Peers → Peers × Bool
penalize_peer key penalty peers = elim (lookup key peers) [
  | none ↦ (peers, false)
  | some p ↦
      (insert key (penalize penalty p) peers, leb_ℤ (penalized_score penalty p) ban_threshold)
]

unfoldable pub is_banned : Text → Peers → Bool
is_banned key peers = elim (lookup key peers) [ none ↦ false | some p ↦ p.banned ]

unfoldable pub get_score : Text → Peers → ℤ
get_score key peers = elim (lookup key peers) [ none ↦ pos 0 | some p ↦ p.score ]

unfoldable pub mark_seen : ℕ → Text → Peers → Peers
mark_seen now key peers = update key (λ p. record p { last_seen = now }) peers

unfoldable pub ping : ℕ → PeerInfo → PeerInfo
ping now p = if p.pending_pong then p else record p { last_ping_sent = now; pending_pong = true }

unfoldable pub mark_ping_sent : ℕ → Text → Peers → Peers
mark_ping_sent now key peers = update key (ping now) peers

unfoldable pub mark_pong_received : ℕ → Text → Peers → Peers
mark_pong_received now key peers =
    update key (λ p. record p { pending_pong = false; last_seen = now }) peers

-- The keys of the peers that pass a test, in the order of the map.
unfoldable pub keys_where : (PeerInfo → Bool) → Peers → List Text
keys_where test [] = []
keys_where test ((key, p) ∷ peers) =
    if test p then key ∷ keys_where test peers else keys_where test peers

abbrev pub is_overdue : ℕ → ℕ → PeerInfo → Bool
is_overdue now timeout_seconds p =
    p.pending_pong && ltb (p.last_ping_sent + nanoseconds timeout_seconds) now

unfoldable pub get_heartbeat_timeout_peers : ℕ → ℕ → Peers → List Text
get_heartbeat_timeout_peers now timeout_seconds peers =
    keys_where (is_overdue now timeout_seconds) peers

abbrev pub is_shareable : PeerInfo → Bool
is_shareable p = not p.banned && ltb_ℤ (pos 20) p.score

unfoldable pub get_shareable_peers : Peers → List Text
get_shareable_peers peers = keys_where is_shareable peers

abbrev pub is_stale : ℕ → ℕ → PeerInfo → Bool
is_stale now stale_seconds p = ltb (p.last_seen + nanoseconds stale_seconds) now

unfoldable pub evict_stale_peers : ℕ → ℕ → Peers → Peers
evict_stale_peers now stale_seconds [] = []
evict_stale_peers now stale_seconds ((key, p) ∷ peers) =
    if is_stale now stale_seconds p
    then evict_stale_peers now stale_seconds peers
    else (key, p) ∷ evict_stale_peers now stale_seconds peers
