-- ===== src/Network/Message/Stream.antt =====
-- src/network/message.cpp and src/network/peer.cpp: what is written is what is read.
use personalblockchain.Prelude.{
  ℕ, suc, zero, ◌*◌, ◌/◌, ◌%◌, ◌^◌, ◌≤◌, ◌<◌, ◌≡◌, refl, false, none, some, List, [], ◌∷◌, ◌++◌,
  Text, text_eq, length, u32_mod, arith, length-append, take-append, drop-append,
}
use personalblockchain.Json.{Json, IsLawful}
use personalblockchain.Network.Message.{
  MessageType, new_transaction, new_block, request_chain, response_chain, ping, pong, peer_list,
  request_peers, response_peers, node_announce, register_node, request_bootstrap,
  response_bootstrap, unknown, Message, to_json, from_text, type_to_string, string_to_type,
  is_unknown, frame, body_length, serialize, deserialize, receive,
}

-- Every message type is read back from its name, the unknown type from "UNKNOWN".
string_to_type-type_to_string : (t : MessageType) → string_to_type (type_to_string t) ≡ t
unfolding string_to_type type_to_string text_eq
string_to_type-type_to_string new_transaction = refl
string_to_type-type_to_string new_block = refl
string_to_type-type_to_string request_chain = refl
string_to_type-type_to_string response_chain = refl
string_to_type-type_to_string ping = refl
string_to_type-type_to_string pong = refl
string_to_type-type_to_string peer_list = refl
string_to_type-type_to_string request_peers = refl
string_to_type-type_to_string response_peers = refl
string_to_type-type_to_string node_announce = refl
string_to_type-type_to_string register_node = refl
string_to_type-type_to_string request_bootstrap = refl
string_to_type-type_to_string response_bootstrap = refl
string_to_type-type_to_string unknown = refl

-- The bytes of the messages, one behind the other.
abbrev pub stream : {J : Type 0} → Json J → List (Message J) → Text
stream json [] = []
stream json (msg ∷ msgs) = serialize json msg ++ stream json msgs

-- What the reader asks of a message: a body of at most 10 MB, and not the unknown type.
pub record IsSendable {J : Type 0} (json : Json J) (msg : Message J) : Type 0 where
  pub small : length (json.dump none (to_json json msg)) ≤ 10 * 1024 * 1024
  pub named : is_unknown msg.type ≡ false

abbrev AreSendable : {J : Type 0} → Json J → List (Message J) → Type 0
AreSendable json [] = Unit {0}
AreSendable json (msg ∷ msgs) = IsSendable json msg × AreSendable json msgs

body_length-frame :
    (n : ℕ)
    → n < u32_mod
    → body_length (n / 2 ^ 24 % 256) (n / 2 ^ 16 % 256) (n / 2 ^ 8 % 256) (n % 256) ≡ n
unfolding body_length
body_length-frame n h = omega arith

module _ {J : Type 0} (json : Json J) where
  from_text-dump :
      (msg : Message J)
      → IsLawful json
      → from_text json (json.dump none (to_json json msg)) ≡ some msg
  unfolding from_text to_json text_eq
  from_text-dump msg v = simp (
    v.parse-dump, v.value_text-set_text, v.value_text-set_ne, v.value_json-set,
    string_to_type-type_to_string,
  )

  deserialize-dump :
      (msg : Message J) → IsLawful json → deserialize json (json.dump none (to_json json msg)) ≡ msg
  unfolding deserialize
  deserialize-dump msg v = rw (from_text-dump msg v, deserialize) refl

  -- One message at the front of the bytes is delivered, and reading goes on behind it.
  receive-serialize :
      (fuel : ℕ) (msg : Message J) (rest : Text)
      → IsLawful json
      → IsSendable json msg
      → receive json (suc fuel) (serialize json msg ++ rest) ≡ msg ∷ receive json fuel rest
  unfolding receive serialize frame
  receive-serialize fuel msg rest laws v =
      let body = json.dump none (to_json json msg) in
      let small = v.small in
      let same : length body % u32_mod ≡ length body = omega arith in
      let len = body_length-frame (length body) (omega arith) in
      let front = take-append body rest in
      let back = drop-append body rest in
      let read = deserialize-dump msg laws in
      let known = v.named in
      let long = length-append body rest in rw (same, len, front, back, read, known) (ground arith)

  -- Messages that are written one behind the other are delivered, all and in order, where the JSON
  -- library reads each body back, no body is above 10 MB, no message is of the unknown type, and
  -- the fuel is at least their number.
  pub receive-stream :
      (fuel : ℕ) (msgs : List (Message J))
      → IsLawful json
      → length msgs ≤ fuel
      → AreSendable json msgs
      → receive json fuel (stream json msgs) ≡ msgs
  unfolding receive
  receive-stream zero [] laws h v = refl
  receive-stream (suc fuel) [] laws h v = refl
  receive-stream zero (msg ∷ msgs) laws h v = absurd (omega arith)
  receive-stream (suc fuel) (msg ∷ msgs) laws h v =
      rw
        (
          receive-serialize fuel msg (stream json msgs) laws v.0,
          receive-stream fuel msgs laws (omega arith) v.1,
        )
        refl
