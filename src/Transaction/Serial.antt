-- ===== src/Transaction/Serial.antt =====
-- `Transaction::toJson` and `Transaction::fromJson` (src/transaction/transaction.cpp).
use personalblockchain.Prelude.{
  ◌>>=◌, ◌≡◌, ◌≢◌, refl, false, not, ◌&&◌, Option, some, [], ◌∷◌, Text, codes, is_empty, text_eq,
  ◌==◌, if◌then◌else◌, arith,
}
use personalblockchain.Platform.{Platform}
use personalblockchain.Json.{Json, IsLawful}
use personalblockchain.Transaction.{Transaction, is_coinbase, coinbase_key, derive_address_v2}

-- The repairs for older chain entries.
unfoldable pub complete : Platform → Transaction → Transaction
complete P tx =
    let sent =
      if is_empty tx.from_address
        && not (is_empty tx.sender_public_key)
        && not (text_eq tx.sender_public_key coinbase_key)
      then record tx { from_address = derive_address_v2 P tx.sender_public_key }
      else tx in
    let received =
      if is_empty sent.to_address && not (is_empty sent.receiver_public_key)
      then record sent { to_address = derive_address_v2 P sent.receiver_public_key }
      else sent in
    if (received.amount == 0) && is_coinbase received
    then record received { amount = 50 }
    else received

module _ {J : Type 0} (json : Json J) where
  unfoldable pub to_json : Transaction → J
  to_json tx = json.set (codes "txID") (json.text tx.tx_id) (
      json.set (codes "senderPublicKey") (json.text tx.sender_public_key) (
        json.set (codes "receiverPublicKey") (json.text tx.receiver_public_key) (
          json.set (codes "fromAddress") (json.text tx.from_address) (
            json.set (codes "toAddress") (json.text tx.to_address) (
              json.set (codes "amount") (json.number tx.amount) (
                json.set (codes "nonce") (json.number tx.nonce) (
                  json.set (codes "payload") (json.text tx.payload) (
                    json.set (codes "timestamp") (json.text tx.timestamp) (
                      json.set (codes "digitalSignature") (json.text tx.digital_signature)
                        json.object)))))))))

  -- The members as they are.
  unfoldable pub read_members : J → Option Transaction
  read_members j = do
    tx_id ← json.value_text j (codes "txID") []
    sender_public_key ← json.value_text j (codes "senderPublicKey") []
    receiver_public_key ← json.value_text j (codes "receiverPublicKey") []
    from_address ← json.value_text j (codes "fromAddress") []
    to_address ← json.value_text j (codes "toAddress") []
    amount ← json.value_number j (codes "amount") 0
    nonce ← json.value_number j (codes "nonce") 0
    payload ← json.value_text j (codes "payload") []
    timestamp ← json.value_text j (codes "timestamp") []
    digital_signature ← json.value_text j (codes "digitalSignature") []
    some (record {
      tx_id = tx_id;
      sender_public_key = sender_public_key;
      receiver_public_key = receiver_public_key;
      from_address = from_address;
      to_address = to_address;
      amount = amount;
      nonce = nonce;
      payload = payload;
      timestamp = timestamp;
      digital_signature = digital_signature;
    })

  unfoldable pub from_json : Platform → J → Option Transaction
  from_json P j = do tx ← read_members j; some (complete P tx)

  read_members-to_json : (tx : Transaction) → IsLawful json → read_members (to_json tx) ≡ some tx
  unfolding read_members to_json text_eq
  read_members-to_json tx v =
      simp (
        v.value_text-set_text, v.value_number-set_number, v.value_text-set_ne,
        v.value_number-set_ne,
      )

  -- A transaction is read back as it was written, with an empty sender or receiver address filled
  -- in from the key, and the amount of a reward of 0 set to 50.
  pub from_json-to_json :
      (P : Platform) (tx : Transaction)
      → IsLawful json
      → from_json P (to_json tx) ≡ some (complete P tx)
  unfolding from_json
  from_json-to_json P tx v = rw (read_members-to_json tx v) refl

-- A transaction that names its addresses and an amount needs no repair.
abbrev pub IsComplete : Transaction → Type 0
IsComplete tx = (tx.from_address ≢ []) × (tx.to_address ≢ []) × (tx.amount ≢ 0)

is_empty-ne : (s : Text) → s ≢ [] → is_empty s ≡ false
is_empty-ne [] h = absurd (h refl)
is_empty-ne (c ∷ s) h = refl

pub complete-IsComplete : (P : Platform) (tx : Transaction) → IsComplete tx → complete P tx ≡ tx
unfolding complete
complete-IsComplete P tx h =
    let from = is_empty-ne tx.from_address h.0 in
    let to = is_empty-ne tx.to_address h.1 in let amount = h.2 in ground arith
