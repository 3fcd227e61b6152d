-- ===== src/Main/Arguments.antt =====
-- src/main.cpp: `parseArgs`.
use personalblockchain.Prelude.{
  ◌>>=◌, ℕ, ◌-◌, ◌%◌, ◌^◌, Bool, true, false, ◌||◌, Option, none, some, List, [], ◌∷◌, Text, codes,
  text_eq, any, ltb, zero, suc, ◌==◌, u32_mod, if◌then◌else◌,
}
use personalblockchain.Prelude.Int.{ℤ, pos, negsuc}
use personalblockchain.Json.{Json}
use personalblockchain.Network.PeerManager.Endpoint.{skip_spaces, magnitude}
use personalblockchain.Network.HttpServer.Requests.{stoul}
use personalblockchain.Main.{Config, default_config, parse_peer_list, load_config_file}

-- `std::stoi`; nothing where it throws.
unfoldable pub stoi : Text → Option ℤ
stoi s = elim (skip_spaces s) [
  | [] ↦ none
  | c ∷ t ↦
      if c == b'-'
      then elim (magnitude t) [
        | none ↦ none
        | some zero ↦ some (pos 0)
        | some (suc n) ↦ if ltb n (2 ^ 31) then some (negsuc n) else none
      ]
      else elim (magnitude (if c == b'+' then t else c ∷ t)) [
        | none ↦ none
        | some n ↦ if ltb n (2 ^ 31) then some (pos n) else none
      ]
]

-- The cast of an `int` to an unsigned type that counts modulo `m`.
abbrev cast_to : ℕ → ℤ → ℕ
cast_to m (pos n) = n % m
cast_to m (negsuc n) = m - 1 - n % m

-- The options that take a value in the second loop.
abbrev value_options : List Text
value_options =
    codes "--port"
    ∷ codes "--http-port"
    ∷ codes "--difficulty"
    ∷ codes "--data-dir"
    ∷ codes "--consensus"
    ∷ codes "--name"
    ∷ codes "--peers"
    ∷ codes "--bootstrap"
    ∷ codes "--public-ip"
    ∷ codes "--max-outbound-peers"
    ∷ codes "--max-inbound-peers"
    ∷ []

-- What an option does with its value; nothing where it throws.
unfoldable pub set_option : Text → Text → Config → Option Config
set_option arg value config =
    if text_eq arg (codes "--port")
    then (do n ← stoi value; some (record config { p2p_port = cast_to (2 ^ 16) n }))
    else if text_eq arg (codes "--http-port")
    then (do n ← stoi value; some (record config { http_port = cast_to (2 ^ 16) n }))
    else if text_eq arg (codes "--difficulty")
    then (do n ← stoi value; some (record config { difficulty = cast_to u32_mod n }))
    else if text_eq arg (codes "--data-dir")
    then some (record config { data_dir = value })
    else if text_eq arg (codes "--consensus")
    then some (record config { consensus = value })
    else if text_eq arg (codes "--name")
    then some (record config { name = value })
    else if text_eq arg (codes "--peers")
    then (do peers ← parse_peer_list value config.peers; some (record config { peers = peers }))
    else if text_eq arg (codes "--bootstrap")
    then (do nodes ← parse_peer_list value []; some (record config { bootstrap_nodes = nodes }))
    else if text_eq arg (codes "--public-ip")
    then some (record config { public_ip = value })
    else if text_eq arg (codes "--max-outbound-peers")
    then (do n ← stoul value; some (record config { max_outbound_peers = n }))
    else if text_eq arg (codes "--max-inbound-peers")
    then (do n ← stoul value; some (record config { max_inbound_peers = n }))
    else some config

-- The first loop: the value behind the last "--config", where there is one. An option that is the
-- last argument has no value, and does nothing; the same holds of the second loop.
unfoldable find_config : Bool → Text → List Text → Text
find_config pending path [] = path
find_config true path (arg ∷ args) = find_config false arg args
find_config false path (arg ∷ args) = find_config (text_eq arg (codes "--config")) path args

-- What the second loop comes to: a configuration, or the end of the program behind "--help".
pub data Parsed : Type 0 where
  configured : Config → Parsed
  exits : Parsed

abbrev asks_for_help : Text → Bool
asks_for_help arg = text_eq arg (codes "--help") || text_eq arg (codes "-h")

-- The second loop, behind an option whose value comes next, if there is one.
unfoldable pub apply_args : Option Text → List Text → Config → Option Parsed
apply_args pending [] config = some (configured config)
apply_args (some option) (arg ∷ args) config = do
  changed ← set_option option arg config
  apply_args none args changed
apply_args none (arg ∷ args) config =
    let value_next = apply_args (some arg) args config in
    let skipped = apply_args none args config in
    if any (text_eq arg) value_options
    then value_next
    else if asks_for_help arg
    then some exits
    else skipped

-- The file is read through `files`. Nothing where an exception ends the program.
unfoldable parse_args : {J : Type 0} → Json J → (Text → Option Text) → List Text → Option Parsed
parse_args json files args =
    let path = find_config false default_config.config_path args in
    do
      config ← load_config_file json (files path) (record default_config { config_path = path })
      apply_args none args config
