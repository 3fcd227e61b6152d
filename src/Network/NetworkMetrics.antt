-- ===== src/Network/NetworkMetrics.antt =====
-- src/network/network_metrics.cpp: the counters that a node shows. The atomic counters hold a `size_t`.
use personalblockchain.Prelude.{ℕ, ◌+◌, ◌-◌, ◌/◌, ◌%◌, codes, u64_mod}
use personalblockchain.Json.{Json}

pub record NetworkMetrics : Type 0 where
  -- In nanoseconds of the steady clock.
  pub started_at : ℕ
  pub connected_peers : ℕ
  pub known_peers : ℕ
  pub rejected_peers : ℕ
  pub banned_peers : ℕ

unfoldable pub new_metrics : ℕ → NetworkMetrics
new_metrics now = record {
  started_at = now;
  connected_peers = 0;
  known_peers = 0;
  rejected_peers = 0;
  banned_peers = 0;
}

unfoldable pub set_connected_peers : ℕ → NetworkMetrics → NetworkMetrics
set_connected_peers count m = record m { connected_peers = count }

unfoldable pub set_known_peers : ℕ → NetworkMetrics → NetworkMetrics
set_known_peers count m = record m { known_peers = count }

unfoldable pub set_banned_peers : ℕ → NetworkMetrics → NetworkMetrics
set_banned_peers count m = record m { banned_peers = count }

unfoldable increment_rejected_peers : NetworkMetrics → NetworkMetrics
increment_rejected_peers m = record m { rejected_peers = (m.rejected_peers + 1) % u64_mod }

unfoldable pub to_json : {J : Type 0} → Json J → ℕ → NetworkMetrics → J
to_json json now m = json.set (codes "connectedPeers") (json.number m.connected_peers) (
    json.set (codes "knownPeers") (json.number m.known_peers) (
      json.set (codes "rejectedPeers") (json.number m.rejected_peers) (
        json.set (codes "bannedPeers") (json.number m.banned_peers) (
          json.set (codes "networkUptimeSeconds")
            (json.number ((now - m.started_at) / 1_000_000_000)) json.object))))
