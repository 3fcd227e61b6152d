-- ===== src/Samples/Network.antt =====
-- Peers and messages at concrete inputs.
use personalblockchain.Prelude.{
  ◌≡◌, refl, none, some, List, [], ◌∷◌, Text, codes, text_eq, text_lt, decimal, arith,
}
use personalblockchain.Prelude.Int.{pos, negsuc, ◌+ℤ◌}
use personalblockchain.Prelude.Map.{lookup, insert}
use personalblockchain.Network.PeerScorer.{
  PeerInfo, Peers, new_peer, add_peer, reward, reward_peer, penalized_score, penalize,
  penalize_peer, is_banned, get_score, get_shareable_peers, get_heartbeat_timeout_peers, is_overdue,
  is_stale, evict_stale_peers, mark_ping_sent,
}
use personalblockchain.Network.PeerScorer
use personalblockchain.Network.PeerScorer.Fairness.{Reach, starts, steps, adds, penalizes, pings}
use personalblockchain.Network.Message.{
  to_json, Message, ping, new_block, type_to_string, is_unknown, receive,
}
use personalblockchain.Samples.Values.{Value, object, number, values, values-IsLawful}
use personalblockchain.Network.Message.Stream.{stream, receive-stream}

abbrev key : Text
key = codes "a:1"

-- A peer that is penalized once for an invalid block, and then pinged.
abbrev met : Peers
met = add_peer 5 (codes "a") 1 []

abbrev blamed : Peers
blamed = (penalize_peer key (negsuc 9) met).0

abbrev pinged : Peers
pinged = mark_ping_sent 7 key blamed

reached : Reach pinged
reached =
    steps (steps (steps starts (adds 5 (codes "a") 1)) (penalizes key (negsuc 9) (omega arith)))
      (pings 7 key)

ninety : get_score key pinged ≡ pos 90
unfolding get_score mark_ping_sent penalize_peer add_peer new_peer penalize penalized_score
    PeerScorer.ping lookup insert text_eq text_lt decimal ◌+ℤ◌
ninety = refl

abbrev peer : PeerInfo
peer = elim (lookup key pinged) [ none ↦ new_peer 0 [] 0 | some p ↦ p ]

known : lookup key pinged ≡ some peer
unfolding mark_ping_sent penalize_peer add_peer new_peer penalize penalized_score PeerScorer.ping
    lookup insert text_eq text_lt decimal ◌+ℤ◌
known = refl

abbrev two_messages : List (Message Value)
two_messages =
    record { type = ping; payload = object } ∷ record { type = new_block; payload = number 7 } ∷ []

receive-stream_example : receive values 5 (stream values two_messages) ≡ two_messages
unfolding to_json type_to_string is_unknown
receive-stream_example = receive-stream values 5 two_messages values-IsLawful (omega arith) (
  record { small = omega arith; named = refl },
  (record { small = omega arith; named = refl }, tt),
)
