-- ===== src/Network/Node/Dedup.antt =====
-- src/network/node.cpp: messages that were seen before.
use personalblockchain.Prelude.{
  ℕ, ◌-◌, ◌/◌, Bool, true, false, none, some, [], ◌∷◌, ◌++◌, Text, ltb, decimal, if◌then◌else◌,
}
use personalblockchain.Prelude.Map.{Map, lookup, insert}
use personalblockchain.Platform.{Platform}
use personalblockchain.Json.{Json}
use personalblockchain.Crypto.{sha256}
use personalblockchain.Network.Message.{
  MessageType, new_transaction, new_block, request_chain, response_chain, ping, pong, peer_list,
  request_peers, response_peers, node_announce, register_node, request_bootstrap,
  response_bootstrap, unknown, Message,
}
use personalblockchain.Network.Node.{Node, Clock}

-- `static_cast<int>` of the type.
unfoldable pub type_number : MessageType → ℕ
type_number new_transaction = 0
type_number new_block = 1
type_number request_chain = 2
type_number response_chain = 3
type_number ping = 4
type_number pong = 5
type_number peer_list = 6
type_number request_peers = 7
type_number response_peers = 8
type_number node_announce = 9
type_number register_node = 10
type_number request_bootstrap = 11
type_number response_bootstrap = 12
type_number unknown = 13

abbrev pub is_keep_alive : MessageType → Bool
is_keep_alive ping = true
is_keep_alive pong = true
is_keep_alive _ = false

abbrev pub age : ℕ → ℕ → ℕ
age now then_ = (now - then_) / 1_000_000_000

abbrev pub forget_older : ℕ → ℕ → Map ℕ → Map ℕ
forget_older now window [] = []
forget_older now window ((k, t) ∷ m) =
    let rest = forget_older now window m in if ltb window (age now t) then rest else (k, t) ∷ rest

unfoldable pub dedup_key : {J : Type 0} → Json J → Platform → Message J → Text
dedup_key json P msg =
    decimal (type_number msg.type) ++ b':' ∷ sha256 P (json.dump none msg.payload)

module _ {J : Type 0} {D : Type 0} (json : Json J) (P : Platform) (clock : Clock) where
  -- Whether the message is new, and the table with it.
  unfoldable pub deduplicate : Message J → Node J D → Node J D × Bool
  deduplicate msg n =
      let key = dedup_key json P msg in
      let window = n.options.dedup_window_sec in
      let noted = record n {
        message_dedup = forget_older clock.steady window (insert key clock.steady n.message_dedup);
      } in
      if is_keep_alive msg.type then (n, true) else elim (lookup key n.message_dedup) [
        | none ↦ (noted, true)
        | some t ↦ if ltb (age clock.steady t) window then (n, false) else (noted, true)
      ]
