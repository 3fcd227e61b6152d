-- ===== src/Network/Message.antt =====
-- src/network/message.cpp, include/network/message.h and the reading half of src/network/peer.cpp:
-- messages on the wire, each behind its length in four bytes. The JSON library is a parameter.
pub mod Stream
use personalblockchain.Prelude.{
  ℕ, suc, zero, ◌+◌, ◌*◌, ◌/◌, ◌%◌, ◌^◌, Bool, true, false, Option, none, some, List, [], ◌∷◌, ◌++◌,
  Text, codes, text_eq, length, take, drop, ltb, u32_mod, if◌then◌else◌, ◌>>=◌,
}
use personalblockchain.Json.{Json}

pub data MessageType : Type 0 where
  new_transaction new_block request_chain response_chain ping pong peer_list : MessageType
  request_peers response_peers node_announce register_node request_bootstrap : MessageType
  response_bootstrap unknown : MessageType

pub record Message (J : Type 0) : Type 0 where
  pub type : MessageType
  pub payload : J

unfoldable pub type_to_string : MessageType → Text
type_to_string new_transaction = codes "NEW_TRANSACTION"
type_to_string new_block = codes "NEW_BLOCK"
type_to_string request_chain = codes "REQUEST_CHAIN"
type_to_string response_chain = codes "RESPONSE_CHAIN"
type_to_string ping = codes "PING"
type_to_string pong = codes "PONG"
type_to_string peer_list = codes "PEER_LIST"
type_to_string request_peers = codes "REQUEST_PEERS"
type_to_string response_peers = codes "RESPONSE_PEERS"
type_to_string node_announce = codes "NODE_ANNOUNCE"
type_to_string register_node = codes "REGISTER_NODE"
type_to_string request_bootstrap = codes "REQUEST_BOOTSTRAP"
type_to_string response_bootstrap = codes "RESPONSE_BOOTSTRAP"
type_to_string unknown = codes "UNKNOWN"

unfoldable pub string_to_type : Text → MessageType
string_to_type str =
    if text_eq str (codes "NEW_TRANSACTION")
    then new_transaction
    else if text_eq str (codes "NEW_BLOCK")
    then new_block
    else if text_eq str (codes "REQUEST_CHAIN")
    then request_chain
    else if text_eq str (codes "RESPONSE_CHAIN")
    then response_chain
    else if text_eq str (codes "PING")
    then ping
    else if text_eq str (codes "PONG")
    then pong
    else if text_eq str (codes "PEER_LIST")
    then peer_list
    else if text_eq str (codes "REQUEST_PEERS")
    then request_peers
    else if text_eq str (codes "RESPONSE_PEERS")
    then response_peers
    else if text_eq str (codes "NODE_ANNOUNCE")
    then node_announce
    else if text_eq str (codes "REGISTER_NODE")
    then register_node
    else if text_eq str (codes "REQUEST_BOOTSTRAP")
    then request_bootstrap
    else if text_eq str (codes "RESPONSE_BOOTSTRAP")
    then response_bootstrap
    else unknown

-- `msg.type == MessageType::UNKNOWN`
unfoldable pub is_unknown : MessageType → Bool
is_unknown unknown = true
is_unknown _ = false

-- The four bytes of a length, the highest first, before the body.
unfoldable pub frame : Text → Text
frame body =
    let len = length body % u32_mod in
    len / 2 ^ 24 % 256 ∷ len / 2 ^ 16 % 256 ∷ len / 2 ^ 8 % 256 ∷ len % 256 ∷ body

unfoldable pub body_length : ℕ → ℕ → ℕ → ℕ → ℕ
body_length a b c d = a * 2 ^ 24 + b * 2 ^ 16 + c * 2 ^ 8 + d

module _ {J : Type 0} (json : Json J) where
  unfoldable pub to_json : Message J → J
  to_json msg =
      json.set (codes "payload") msg.payload
        (json.set (codes "type") (json.text (type_to_string msg.type)) json.object)

  unfoldable pub serialize : Message J → Text
  serialize msg = frame (json.dump none (to_json msg))

  unfoldable pub from_text : Text → Option (Message J)
  from_text body = do
    j ← json.parse body
    str ← json.value_text j (codes "type") (codes "UNKNOWN")
    payload ← json.value_json j (codes "payload") json.object
    some (record { type = string_to_type str; payload = payload })

  -- An exception inside is caught.
  unfoldable pub deserialize : Text → Message J
  deserialize body = elim (from_text body) [
    | none ↦ record { type = unknown; payload = json.object }
    | some msg ↦ msg
  ]

  -- The calls of the message handler while the bytes are read; reading ends where they end, and at
  -- a message of more than 10 MB. The fuel counts messages, four bytes each at the least.
  unfoldable pub receive : ℕ → Text → List (Message J)
  receive zero bytes = []
  receive (suc fuel) (a ∷ b ∷ c ∷ d ∷ bytes) =
      let len = body_length a b c d in
      let msg = deserialize (take len bytes) in
      let later = receive fuel (drop len bytes) in
      if ltb (10 * 1024 * 1024) len
      then []
      else if ltb (length bytes) len
      then []
      else if is_unknown msg.type
      then later
      else msg ∷ later
  receive (suc fuel) _ = []
