-- ===== src/Main.antt =====
-- src/main.cpp: the configuration of a node, from its file and the command line. What `main` does with
-- it is the constructors of the other modules; threads and signals are left out.
pub mod Arguments
pub mod Peers
use personalblockchain.Prelude.{
  ◌>>=◌, ℕ, ◌+◌, ◌-◌, ◌%◌, ◌^◌, Bool, true, false, Option, none, some, List, [], ◌∷◌, ◌++◌, Text,
  codes, is_empty, ltb, u32_mod, u64_mod, if◌then◌else◌,
}
use personalblockchain.Prelude.Int.{ℤ, pos, negsuc}
use personalblockchain.Json.{Json}
use personalblockchain.Network.PeerManager.Endpoint.{split_last, port_of}
use personalblockchain.Network.HttpServer.Words.{lines}

pub record PeerAddress : Type 0 where
  pub host : Text
  pub port : ℕ

-- `NetworkTimeouts` and `RetryPolicy`.
pub record NetworkTimeouts : Type 0 where
  pub heartbeat_interval_sec : ℤ
  pub heartbeat_timeout_sec : ℤ
  pub gossip_interval_sec : ℤ
  pub peer_rotation_sec : ℤ
  pub quarantine_sec : ℤ
  pub dedup_window_sec : ℤ

pub record RetryPolicy : Type 0 where
  pub max_retries : ℤ
  pub base_delay_ms : ℤ
  pub max_delay_ms : ℤ
  pub jitter_ms : ℤ
  pub reconnect_cooldown_ms : ℤ

pub record Config : Type 0 where
  pub p2p_port : ℕ
  pub http_port : ℕ
  pub difficulty : ℕ
  pub data_dir : Text
  pub consensus : Text
  pub name : Text
  pub config_path : Text
  pub public_ip : Text
  pub peers : List PeerAddress
  pub bootstrap_nodes : List PeerAddress
  pub max_outbound_peers : ℕ
  pub max_inbound_peers : ℕ
  pub network_timeouts : NetworkTimeouts
  pub retry_policy : RetryPolicy

abbrev default_timeouts : NetworkTimeouts
default_timeouts = record {
  heartbeat_interval_sec = pos 15;
  heartbeat_timeout_sec = pos 45;
  gossip_interval_sec = pos 30;
  peer_rotation_sec = pos 45;
  quarantine_sec = pos 120;
  dedup_window_sec = pos 90;
}

abbrev default_retry_policy : RetryPolicy
default_retry_policy = record {
  max_retries = pos 6;
  base_delay_ms = pos 500;
  max_delay_ms = pos 30000;
  jitter_ms = pos 400;
  reconnect_cooldown_ms = pos 1200;
}

abbrev pub default_config : Config
default_config = record {
  p2p_port = 5000;
  http_port = 8000;
  difficulty = 2;
  data_dir = codes "./data";
  consensus = codes "pow";
  name = codes "PersonalBlockchain";
  config_path = codes "config.json";
  public_ip = [];
  peers = [];
  bootstrap_nodes = [];
  max_outbound_peers = 8;
  max_inbound_peers = 32;
  network_timeouts = default_timeouts;
  retry_policy = default_retry_policy;
}

-- A host and the text of a port. Outside, nothing where `std::stoi` throws; inside, nothing for false.
abbrev address_at : Text → Text → Option (Option PeerAddress)
address_at host digits = do
  port ← port_of digits
  some (if ltb 0 port then some (record { host = host; port = port }) else none)

unfoldable pub parse_endpoint : Text → Option (Option PeerAddress)
parse_endpoint entry = if is_empty entry then some none else elim (split_last entry) [
  | none ↦ address_at (codes "127.0.0.1") entry
  | some (host, behind) ↦
      if is_empty host then address_at (codes "127.0.0.1") entry else address_at host behind
]

abbrev push_found : Option PeerAddress → List PeerAddress → List PeerAddress
push_found none target = target
push_found (some address) target = target ++ address ∷ []

-- The loop over the entries; the empty ones are skipped.
unfoldable pub add_peers : List Text → List PeerAddress → Option (List PeerAddress)
add_peers [] target = some target
add_peers (entry ∷ entries) target = do
  found ← parse_endpoint entry
  add_peers entries (push_found found target)

unfoldable pub parse_peer_list : Text → List PeerAddress → Option (List PeerAddress)
parse_peer_list peers_str target = add_peers (lines b',' peers_str) target

module _ {J : Type 0} (json : Json J) where
  -- The elements of an array that are texts.
  abbrev texts : List J → List Text
  texts [] = []
  texts (item ∷ items) =
      let rest = texts items in elim (json.as_text item) [ none ↦ rest | some text ↦ text ∷ rest ]

  -- The addresses under a key that holds an array, else those that are there.
  unfoldable pub peers_at : Text → J → List PeerAddress → Option (List PeerAddress)
  peers_at key j old =
      if json.contains j key
      then elim (do v ← json.value_json j key json.null; json.elements v) [
        | none ↦ some old
        | some items ↦ add_peers (texts items) []
      ]
      else some old

  -- Whether a key holds an array.
  abbrev has_array : Text → J → Bool
  has_array key j =
      if json.contains j key
      then elim (do v ← json.value_json j key json.null; json.elements v) [
        | none ↦ false
        | some items ↦ true
      ]
      else false

  -- "seed_peers" goes before "peers".
  abbrev read_peers : J → List PeerAddress → Option (List PeerAddress)
  read_peers j old =
      if has_array (codes "seed_peers") j
      then peers_at (codes "seed_peers") j old
      else peers_at (codes "peers") j old

  -- The object under a key, where there is one.
  abbrev object_at : Text → J → Option J
  object_at key j = do
    v ← (if json.contains j key then json.value_json j key json.null else none)
    (if json.is_object v then some v else none)

  unfoldable pub read_limits : J → Config → Option Config
  read_limits j config = elim (object_at (codes "peer_limits") j) [
    | none ↦ some config
    | some limits ↦ do
      outbound ← json.value_number limits (codes "max_outbound_peers") config.max_outbound_peers
      inbound ← json.value_number limits (codes "max_inbound_peers") config.max_inbound_peers
      some (record config { max_outbound_peers = outbound; max_inbound_peers = inbound })
  ]

  unfoldable pub read_timeouts : J → NetworkTimeouts → Option NetworkTimeouts
  read_timeouts j t = elim (object_at (codes "network_timeouts") j) [
    | none ↦ some t
    | some o ↦ do
      interval ← json.value_integer o (codes "heartbeat_interval_sec") t.heartbeat_interval_sec
      timeout ← json.value_integer o (codes "heartbeat_timeout_sec") t.heartbeat_timeout_sec
      gossip ← json.value_integer o (codes "gossip_interval_sec") t.gossip_interval_sec
      rotation ← json.value_integer o (codes "peer_rotation_sec") t.peer_rotation_sec
      quarantine ← json.value_integer o (codes "quarantine_sec") t.quarantine_sec
      dedup ← json.value_integer o (codes "dedup_window_sec") t.dedup_window_sec
      some (record {
        heartbeat_interval_sec = interval;
        heartbeat_timeout_sec = timeout;
        gossip_interval_sec = gossip;
        peer_rotation_sec = rotation;
        quarantine_sec = quarantine;
        dedup_window_sec = dedup;
      })
  ]

  unfoldable pub read_retry_policy : J → RetryPolicy → Option RetryPolicy
  read_retry_policy j r = elim (object_at (codes "retry_policy") j) [
    | none ↦ some r
    | some o ↦ do
      retries ← json.value_integer o (codes "max_retries") r.max_retries
      base ← json.value_integer o (codes "base_delay_ms") r.base_delay_ms
      longest ← json.value_integer o (codes "max_delay_ms") r.max_delay_ms
      jitter ← json.value_integer o (codes "jitter_ms") r.jitter_ms
      cooldown ← json.value_integer o (codes "reconnect_cooldown_ms") r.reconnect_cooldown_ms
      some (record {
        max_retries = retries;
        base_delay_ms = base;
        max_delay_ms = longest;
        jitter_ms = jitter;
        reconnect_cooldown_ms = cooldown;
      })
  ]

  unfoldable pub read_config : J → Config → Option Config
  read_config j config = do
    p2p_port ← json.value_number j (codes "p2p_port") config.p2p_port
    http_port ← json.value_number j (codes "http_port") config.http_port
    difficulty ← json.value_number j (codes "difficulty") config.difficulty
    data_dir ← json.value_text j (codes "data_dir") config.data_dir
    consensus ← json.value_text j (codes "consensus") config.consensus
    name ← json.value_text j (codes "name") config.name
    public_ip ← json.value_text j (codes "public_ip") config.public_ip
    bootstrap_nodes ← peers_at (codes "bootstrap_nodes") j config.bootstrap_nodes
    peers ← read_peers j config.peers
    limited ← read_limits j config
    timeouts ← read_timeouts j config.network_timeouts
    retry_policy ← read_retry_policy j config.retry_policy
    some (record limited {
      p2p_port = p2p_port % 2 ^ 16;
      http_port = http_port % 2 ^ 16;
      difficulty = difficulty % u32_mod;
      data_dir = data_dir;
      consensus = consensus;
      name = name;
      public_ip = public_ip;
      bootstrap_nodes = bootstrap_nodes;
      peers = peers;
      network_timeouts = timeouts;
      retry_policy = retry_policy;
    })

  -- The file, where it can be read. Nothing where it throws, which ends the program.
  unfoldable pub load_config_file : Option Text → Config → Option Config
  load_config_file none config = some config
  load_config_file (some text) config = do j ← json.read text; read_config j config
